-- ===== src/Trie/Leafs.antt =====
-- src/tree/trie.c: which words the functions that print list.
use data_structures.Prelude.{
  ℕ, zero, suc, ◌+◌, ◌≤◌, ◌<◌, ◌≡◌, refl, ap, arith, sym, ◌∙◌, Bool, true, false, ◌&&◌, Option,
  none, some, List, [], ◌∷◌, ◌++◌, if◌then◌else◌, ltb, ◌==◌, inl, inr, Bool-cases, length,
  length-append, all_below, all_below-get,
}
use data_structures.Trie.{Node, null, freed, node, letter, is_null, children_no, search_path}
use data_structures.Trie.Words.{IsWord, same, search_path-cons}
use data_structures.Trie.Lookup.{max_word_len, each_child, extend, print_leafs}
use data_structures.Trie.Listing.{
  one_if, occurrences, strip, at_rest, sum_below, sum_below-zero, occurrences-append, strip-append,
  strip-IsWord, one_child,
}

-- No pointer leads to a freed node, and no node stands deeper than `room`.
unfoldable pub fits : (room : ℕ) → Node → Bool
fits room null = true
fits room freed = false
fits zero (node children is_leaf) = all_below children_no (λ i. is_null (children i))
fits (suc room) (node children is_leaf) = all_below children_no (λ i. fits room (children i))

-- The words are listed, and each of them as often as the count says.
pub record Lists (result : Option (List (List ℕ))) (count : List ℕ → ℕ) : Type 0 where
  pub out : List (List ℕ)
  pub runs : result ≡ some out
  pub counts : (word : List ℕ) → IsWord word → occurrences word out ≡ count word

-- 1 for a word that is in the tree
abbrev pub once : Option Bool → ℕ
once none = 0
once (some found) = one_if found

abbrev pub is_exact : Option (List ℕ) → Bool
is_exact none = false
is_exact (some []) = true
is_exact (some (c ∷ rest)) = false

same_strip : (prefix word : List ℕ) → same word prefix ≡ is_exact (strip prefix word)
same_strip [] [] = refl
same_strip [] (d ∷ word) = refl
same_strip (c ∷ prefix) [] = refl
same_strip (c ∷ prefix) (d ∷ word) = elim (Bool-cases (d == c)) [
  | inl equal ↦ rw equal (same_strip prefix word)
  | inr other ↦ rw other refl
]

at_rest-zero : (r : Option (List ℕ)) → at_rest (λ rest. 0) r ≡ 0
at_rest-zero none = refl
at_rest-zero (some rest) = refl

-- Each call for a child adds its words.
pub each_child-Lists :
    (n : ℕ) (visit : ℕ → Option (List (List ℕ))) (count : ℕ → List ℕ → ℕ)
    → ((i : ℕ) → i < n → Lists (visit i) (count i))
    → Lists (each_child n visit) (λ word. sum_below n (λ i. count i word))
unfolding sum_below
each_child-Lists zero visit count h = record { out = []; runs = refl; counts = λ word low. refl }
each_child-Lists (suc n) visit count h =
    let before = each_child-Lists n visit count (λ i q. h i (omega arith)) in
    let last = h n (omega arith) in
    record {
      out = before.out ++ last.out;
      runs = rw (before.runs, last.runs) refl;
      counts = λ word low.
          occurrences-append word before.out last.out
          ∙ (rw (before.counts word low, last.counts word low) refl);
    }

-- what a child below a word that fits leaves
pub fits-child :
    (room : ℕ) (children : ℕ → Node) (is_leaf : Bool) (i : ℕ)
    → fits room (node children is_leaf) ≡ true
    → i < children_no
    → is_null (children i) ≡ false
    → (left : ℕ) × (room ≡ suc left) × (fits left (children i) ≡ true)
unfolding fits
fits-child zero children is_leaf i h q there =
    cc (there, all_below-get children_no (λ i. is_null (children i)) i h q)
fits-child (suc room) children is_leaf i h q there =
    (room, refl, all_below-get children_no (λ i. fits room (children i)) i h q)

-- The words of a tree that start with a prefix, counted by the rest of the word.
abbrev pub below : Node → List ℕ → List ℕ → ℕ
below tmp prefix word = at_rest (λ rest. once (search_path tmp rest)) (strip prefix word)

pub no_words :
    (child : Node) (prefix word : List ℕ) → is_null child ≡ true → below child prefix word ≡ 0
unfolding search_path
no_words null prefix word h = at_rest-zero (strip prefix word)
no_words freed prefix word h = cc h
no_words (node children is_leaf) prefix word h = cc h

no_rest :
    (child : Node) (prefix : List ℕ) (rest : Option (List ℕ))
    → is_null child ≡ true
    → at_rest (λ word. below child prefix word) rest ≡ 0
no_rest child prefix none h = refl
no_rest child prefix (some word) h = no_words child prefix word h

child-Lists :
    (child : Node) (i : ℕ) (word : List ℕ)
    → (is_null child ≡ false
        → (ltb (length word) max_word_len ≡ true)
          × Lists (print_leafs child (word ++ (i + 97) ∷ [])) (below child (word ++ (i + 97) ∷ [])))
    → Lists
        (if is_null child then some [] else extend word i (print_leafs child))
        (λ v. at_rest (λ rest. below child ((i + 97) ∷ []) rest) (strip word v))
child-Lists child i word h = elim (Bool-cases (is_null child)) [
  | inl absent ↦ record {
    out = [];
    runs = rw absent refl;
    counts = λ v low. sym (no_rest child ((i + 97) ∷ []) (strip word v) absent);
  }
  | inr there ↦
      let (room, lists) = h there in
      record {
        out = lists.out;
        runs = rw (there, room) lists.runs;
        counts = λ v low.
            lists.counts v low ∙ strip-append word (i + 97) v (λ u. once (search_path child u));
      }
]

pub total : (a b c d : ℕ) → a ≡ c → b ≡ d → a + b ≡ c + d
total a b c d p q = omega arith

pub no_leaf : (b : Bool) → one_if (b && false) ≡ 0
no_leaf true = refl
no_leaf false = refl

pub a_leaf : (b : Bool) → one_if (b && true) ≡ one_if b
a_leaf true = refl
a_leaf false = refl

-- The word at a node and the words of its children are the words below it.
node_words :
    (children : ℕ → Node) (is_leaf : Bool) (rest : Option (List ℕ))
    → ((u : List ℕ) → rest ≡ some u → IsWord u)
    → one_if (is_leaf && is_exact rest)
        + sum_below children_no (λ i. at_rest (λ u. below (children i) ((i + 97) ∷ []) u) rest)
      ≡ at_rest (λ u. once (search_path (node children is_leaf) u)) rest
unfolding search_path
node_words children is_leaf none low =
    let s = sum_below children_no (λ i. 0) in
    total (one_if (is_leaf && false)) s 0 0 (no_leaf is_leaf)
      (sum_below-zero children_no (λ i. 0) (λ i q. refl))
    ∙ (omega arith)
node_words children is_leaf (some []) low =
    let s = sum_below children_no (λ i. 0) in
    total (one_if (is_leaf && true)) s (one_if is_leaf) 0 (a_leaf is_leaf)
      (sum_below-zero children_no (λ i. 0) (λ i q. refl))
    ∙ (omega arith)
node_words children is_leaf (some (d ∷ u)) low =
    let h : IsWord (d ∷ u) = low (d ∷ u) refl in
    let f : ℕ → List ℕ → ℕ = λ i w. once (search_path (children i) w) in
    let s = sum_below children_no (λ i. at_rest (f i) (strip ((i + 97) ∷ []) (d ∷ u))) in
    let child = one_child f (d ∷ u) h in
    let step = search_path-cons children is_leaf d u h.0 in
    total (one_if (is_leaf && false)) s 0 (f (letter d) u) (no_leaf is_leaf) child
    ∙ (omega arith)
    ∙ ap once (sym step)

pub leaf_words :
    (is_leaf : Bool) (word v : List ℕ) (out : List (List ℕ))
    → occurrences v (if is_leaf then word ∷ out else out)
      ≡ one_if (is_leaf && is_exact (strip word v)) + occurrences v out
leaf_words true word v out = rw (same_strip word v) refl
leaf_words false word v out = omega arith

-- The words below a node are printed, each once.
pub print_leafs_correct :
    (room : ℕ) (tmp : Node) (word : List ℕ)
    → is_null tmp ≡ false
    → fits room tmp ≡ true
    → length word + room ≤ max_word_len
    → Lists (print_leafs tmp word) (below tmp word)
unfolding print_leafs fits
print_leafs_correct room null word there h q = cc there
print_leafs_correct zero freed word there h q = cc h
print_leafs_correct (suc room) freed word there h q = cc h
print_leafs_correct room (node children is_leaf) word there h q =
    let visit : (i : ℕ)
        → i < children_no
        → is_null (children i) ≡ false
        → (ltb (length word) max_word_len ≡ true)
          × Lists (print_leafs (children i) (word ++ (i + 97) ∷ []))
              (below (children i) (word ++ (i + 97) ∷ [])) =
      λ i k there'.
        (let (left, e, h') = fits-child room children is_leaf i h k there' in
          let longer = length-append word ((i + 97) ∷ []) in
          (
            ground arith,
            print_leafs_correct left (children i) (word ++ (i + 97) ∷ []) there' h' (omega arith),
          )) in
    let lists =
      each_child-Lists children_no
        (λ i. if is_null (children i) then some [] else extend word i (print_leafs (children i)))
        (λ i v. at_rest (λ rest. below (children i) ((i + 97) ∷ []) rest) (strip word v))
        (λ i k. child-Lists (children i) i word (λ there'. visit i k there')) in
    record {
      out = if is_leaf then word ∷ lists.out else lists.out;
      runs = rw lists.runs refl;
      counts = λ v low.
          leaf_words is_leaf word v lists.out
          ∙ ap (λ n. one_if (is_leaf && is_exact (strip word v)) + n) (lists.counts v low)
          ∙ node_words children is_leaf (strip word v) (λ u e. strip-IsWord word v u low e);
    }
