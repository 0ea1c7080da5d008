-- ===== src/Trie/Fill.antt =====
-- `trie_get_leafs_by_prefix` in src/tree/trie.c: the list that it fills, and what it does when an
-- entry cannot be made.
use data_structures.Prelude.{
  All, append-nil, append_assoc, pos, ℕ, zero, suc, ◌+◌, ◌<◌, ◌≡◌, refl, ap, arith, sym, ◌∙◌, Bool,
  true, false, Option, none, some, List, [], ◌∷◌, ◌++◌, if◌then◌else◌, ltb, ◌⊎◌, inl, inr,
  Bool-cases, length, length-append, ◌>>=◌, ℤ, negsuc,
}
use data_structures.Trie.{Node, null, freed, node, is_null, children_no}
use data_structures.Trie.Words.{IsWord}
use data_structures.Trie.Lookup.{
  max_word_len, each_child, extend, print_leafs, descend, print_leafs_by_prefix, each_child_get,
  get_leafs, Words, untouched, listed, outcome, get_found, get_leafs_by_prefix,
}
use data_structures.Trie.Prefix.{leads}
use data_structures.Trie.Leafs.{fits, fits-child}
use data_structures.Trie.Lookups.{descend-cases, by_prefix}

module _ (allocated : List ℕ → Bool) where
  -- Words are added to a list, up to the first one for which no entry is made.
  abbrev pub fill : List (List ℕ) → List (List ℕ) → List (List ℕ) × Bool
  fill list [] = (list, true)
  fill list (w ∷ ws) = if allocated w then fill (list ++ w ∷ []) ws else (list, false)

  fill-append :
      (list xs ys : List (List ℕ))
      → fill list (xs ++ ys) ≡ (if (fill list xs).1 then fill (fill list xs).0 ys else fill list xs)
  fill-append list [] ys = refl
  fill-append list (x ∷ xs) ys = elim (Bool-cases (allocated x)) [
    | inl ok ↦ rw ok (fill-append (list ++ x ∷ []) xs ys)
    | inr fails ↦ rw fails refl
  ]

  -- One call prints the words that the other one adds to the list.
  record Fills (print : Option (List (List ℕ)))
      (get : List (List ℕ) → Option (List (List ℕ) × Bool)) : Type 0 where
    out : List (List ℕ)
    prints : print ≡ some out
    adds : (list : List (List ℕ)) → get list ≡ some (fill list out)

  each_child-Fills :
      (n : ℕ) (visit : ℕ → Option (List (List ℕ)))
      (visit_get : ℕ → List (List ℕ) → Option (List (List ℕ) × Bool))
      → ((i : ℕ) → i < n → Fills (visit i) (visit_get i))
      → Fills (each_child n visit) (each_child_get n visit_get)
  each_child-Fills zero visit visit_get h = record { out = []; prints = refl; adds = λ list. refl }
  each_child-Fills (suc n) visit visit_get h =
      let before = each_child-Fills n visit visit_get (λ i q. h i (omega arith)) in
      let last = h n (omega arith) in
      record {
        out = before.out ++ last.out;
        prints = rw (before.prints, last.prints) refl;
        adds = λ list. rw (before.adds list) (elim (Bool-cases (fill list before.out).1) [
          | inl ok ↦ rw ok (
              last.adds (fill list before.out).0
              ∙ ap some (sym (fill-append list before.out last.out ∙ (rw ok refl))))
          | inr fails ↦
              rw fails (ap some (sym (fill-append list before.out last.out ∙ (rw fails refl))))
        ]);
      }

  child-Fills :
      (child : Node) (i : ℕ) (word : List ℕ)
      → (is_null child ≡ false
          → (ltb (length word) max_word_len ≡ true)
            × Fills
                (print_leafs child (word ++ (i + 97) ∷ []))
                (get_leafs allocated child (word ++ (i + 97) ∷ [])))
      → Fills (if is_null child then some [] else extend word i (print_leafs child)) (λ list.
        if is_null child
        then some (list, true)
        else extend word i (λ word'. get_leafs allocated child word' list))
  child-Fills child i word h = elim (Bool-cases (is_null child)) [
    | inl absent ↦ record { out = []; prints = rw absent refl; adds = λ list. rw absent refl }
    | inr there ↦
        let (room, fills) = h there in
        record {
          out = fills.out;
          prints = rw (there, room) fills.prints;
          adds = λ list. rw (there, room) (fills.adds list);
        }
  ]

  leaf-Fills :
      (is_leaf : Bool) (word : List ℕ) (out list : List (List ℕ))
      (get : List (List ℕ) → Option (List (List ℕ) × Bool))
      → length word < max_word_len
      → ((list : List (List ℕ)) → get list ≡ some (fill list out))
      → (let rest = get (if is_leaf then list ++ word ∷ [] else list) in
          if is_leaf
          then (if ltb (length word) max_word_len
              then (if allocated word then rest else some (list, false))
              else none)
          else rest)
        ≡ some (fill list (if is_leaf then word ∷ out else out))
  leaf-Fills true word out list get q h =
      let room : ltb (length word) max_word_len ≡ true = ground arith in
      elim (Bool-cases (allocated word)) [
        | inl ok ↦ rw (room, ok) (h (list ++ word ∷ []))
        | inr fails ↦ rw (room, fails) refl
      ]
  leaf-Fills false word out list get q h = h list

  get_leafs-Fills :
      (room : ℕ) (tmp : Node) (word : List ℕ)
      → is_null tmp ≡ false
      → fits room tmp ≡ true
      → length word + room < max_word_len
      → Fills (print_leafs tmp word) (get_leafs allocated tmp word)
  unfolding print_leafs get_leafs fits
  get_leafs-Fills room null word there h q = cc there
  get_leafs-Fills zero freed word there h q = cc h
  get_leafs-Fills (suc room) freed word there h q = cc h
  get_leafs-Fills room (node children is_leaf) word there h q =
      let visit : (i : ℕ)
          → i < children_no
          → is_null (children i) ≡ false
          → (ltb (length word) max_word_len ≡ true)
            × Fills (print_leafs (children i) (word ++ (i + 97) ∷ []))
                (get_leafs allocated (children i) (word ++ (i + 97) ∷ [])) =
        λ i k there'.
          (let (left, e, h') = fits-child room children is_leaf i h k there' in
            let longer = length-append word ((i + 97) ∷ []) in
            (
              ground arith,
              get_leafs-Fills left (children i) (word ++ (i + 97) ∷ []) there' h' (omega arith),
            )) in
      let get : List (List ℕ) → Option (List (List ℕ) × Bool) =
        each_child_get children_no (λ i list.
          if is_null (children i)
          then some (list, true)
          else extend word i (λ word'. get_leafs allocated (children i) word' list)) in
      let fills : Fills
          (each_child children_no (λ i.
            if is_null (children i) then some [] else extend word i (print_leafs (children i))))
          get =
        each_child-Fills children_no
          (λ i. if is_null (children i) then some [] else extend word i (print_leafs (children i)))
          (λ i list.
            if is_null (children i)
            then some (list, true)
            else extend word i (λ word'. get_leafs allocated (children i) word' list))
          (λ i k. child-Fills (children i) i word (λ there'. visit i k there')) in
      record {
        out = if is_leaf then word ∷ fills.out else fills.out;
        prints = rw fills.prints refl;
        adds = λ list. leaf-Fills is_leaf word fills.out list get (omega arith) fills.adds;
      }

  fill-all :
      (list out : List (List ℕ))
      → All (λ w. allocated w ≡ true) out
      → fill list out ≡ (list ++ out, true)
  fill-all list [] h = ap (λ l. (l, true)) (sym (append-nil list))
  fill-all list (w ∷ out) (ok, h) =
      rw ok (fill-all (list ++ w ∷ []) out h ∙ ap (λ l. (l, true)) (append_assoc list (w ∷ []) out))

  fill-fails :
      (list front back : List (List ℕ)) (w : List ℕ)
      → allocated w ≡ false
      → (fill list (front ++ w ∷ back)).1 ≡ false
  fill-fails list [] back w h = rw h refl
  fill-fails list (v ∷ front) back w h = elim (Bool-cases (allocated v)) [
    | inl ok ↦ rw ok (fill-fails (list ++ v ∷ []) front back w h)
    | inr fails ↦ rw fails refl
  ]

outcome-fails : (filled : List (List ℕ) × Bool) → filled.1 ≡ false → outcome filled ≡ none
outcome-fails (list, true) h = cc h
outcome-fails (list, false) h = refl

-- The path of the prefix is in the tree: the words that are printed for it are added to the list.
pub record Found (allocated : List ℕ → Bool) (root : Node) (str : List ℕ) (list : List (List ℕ))
    : Type 0 where
  out : List (List ℕ)
  leading : leads root str ≡ true
  prints : print_leafs_by_prefix root (some str) ≡ some out
  gets_all :
      All (λ w. allocated w ≡ true) out
      → get_leafs_by_prefix allocated root (some str) list ≡ some (listed (list ++ out), pos 0)
  fails :
      (front back : List (List ℕ)) (w : List ℕ)
      → out ≡ front ++ w ∷ back
      → allocated w ≡ false
      → get_leafs_by_prefix allocated root (some str) list ≡ none

-- It is not, and the list is left alone.
pub record NotFound (allocated : List ℕ → Bool) (root : Node) (str : List ℕ) (list : List (List ℕ))
    : Type 0 where
  missing : leads root str ≡ false
  prints : print_leafs_by_prefix root (some str) ≡ some []
  gets : get_leafs_by_prefix allocated root (some str) list ≡ some (untouched, negsuc 0)

get_by_prefix :
    (allocated : List ℕ → Bool) (root : Node) (str : List ℕ) (list : List (List ℕ))
    (r : Option (Words × ℤ))
    → is_null root ≡ false
    → (descend root str [] >>= λ found. get_found allocated list found) ≡ r
    → get_leafs_by_prefix allocated root (some str) list ≡ r
unfolding get_leafs_by_prefix
get_by_prefix allocated null str list r there e = cc there
get_by_prefix allocated freed str list r there e = e
get_by_prefix allocated (node children is_leaf) str list r there e = e

-- On a tree without freed nodes and with no node deeper than 127 letters, for a prefix of less
-- than 128 lower-case letters: either the prefix leads to no node, nothing is printed for it, and
-- trie_get_leafs_by_prefix leaves the list alone and returns -1; or it leads to a node, and if an
-- entry can be made for each of the words that trie_print_leafs_by_prefix prints, the function
-- adds them to the list in that order and returns 0, while an entry that cannot be made for one
-- of them ends in a read through NULL.
pub get_leafs_by_prefix_correct :
    (allocated : List ℕ → Bool) (root : Node) (str : List ℕ) (list : List (List ℕ))
    → is_null root ≡ false
    → fits 127 root ≡ true
    → IsWord str
    → length str < max_word_len
    → NotFound allocated root str list ⊎ Found allocated root str list
get_leafs_by_prefix_correct allocated root str list there h low q =
    elim (descend-cases 127 root str [] there h low (omega arith) (omega arith)) [
      | inl missed ↦ inl (record {
        missing = missed.missing;
        prints = by_prefix root str (some []) there (rw missed.run refl);
        gets =
            get_by_prefix allocated root str list (some (untouched, negsuc 0)) there
              (rw missed.run refl);
      })
      | inr reached ↦
          let b : length str + reached.left < max_word_len =
            (let b' = reached.bound in omega arith) in
          let fills =
            get_leafs-Fills allocated reached.left reached.tmp str reached.there reached.small b in
          let run : (filled : List (List ℕ) × Bool)
              → fill allocated list fills.out ≡ filled
              → get_leafs_by_prefix allocated root (some str) list ≡ outcome filled =
            λ filled e.
              get_by_prefix allocated root str list (outcome filled) there
                (rw (reached.run, fills.adds list, e) refl) in
          inr (record {
            out = fills.out;
            leading = reached.leading;
            prints = by_prefix root str (some fills.out) there (rw reached.run fills.prints);
            gets_all = λ h. run (list ++ fills.out, true) (fill-all allocated list fills.out h);
            fails = λ front back w e h.
                run (fill allocated list fills.out) refl
                ∙ outcome-fails (fill allocated list fills.out)
                    (rw e (fill-fails allocated list front back w h));
          })
    ]
