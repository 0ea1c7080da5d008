-- ===== src/Trie/Lookups.antt =====
-- `trie_print_leafs_by_prefix` and `trie_get_leafs_by_prefix` in src/tree/trie.c: the words that
-- start with a prefix.
use data_structures.Prelude.{
  ℕ, zero, suc, ◌+◌, ◌≤◌, ◌<◌, ◌≡◌, refl, ap, arith, sym, ◌∙◌, Bool, true, false, Option, none,
  some, List, [], ◌∷◌, ◌++◌, if◌then◌else◌, ltb, ◌==◌, ==_iff, ◌⊎◌, inl, inr, Bool-cases, length,
  length-append, append_assoc, append-nil, ◌>>=◌,
}
use data_structures.Trie.{
  Node, null, freed, node, letter, is_null, children_no, search_path, search,
}
use data_structures.Trie.Words.{IsLower, IsWord, letter-lt, search_path-null, search_path-cons}
use data_structures.Trie.Prefix.{leads, not-leads-null}
use data_structures.Trie.Lookup.{max_word_len, descend, print_found, print_leafs_by_prefix}
use data_structures.Trie.Listing.{strip, at_rest, strip-IsWord}
use data_structures.Trie.Leafs.{fits, fits-child, Lists, once, below, no_words, print_leafs_correct}

-- The prefix leads to a node, which has the words that start with it.
pub record Reached (room : ℕ) (root : Node) (str word : List ℕ) : Type 0 where
  pub tmp : Node
  pub left : ℕ
  pub run : descend root str word ≡ some (some (tmp, word ++ str))
  pub there : is_null tmp ≡ false
  pub small : fits left tmp ≡ true
  pub bound : length str + left ≡ room
  pub leading : leads root str ≡ true
  pub words : (u : List ℕ) → IsWord u → search_path root (str ++ u) ≡ search_path tmp u

-- The prefix leads to NULL, and no word starts with it.
pub record Missed (root : Node) (str word : List ℕ) : Type 0 where
  pub run : descend root str word ≡ some none
  pub missing : leads root str ≡ false
  pub words : (u : List ℕ) → IsWord u → search_path root (str ++ u) ≡ some false

descend_null :
    (tmp : Node) (str word : List ℕ)
    → is_null tmp ≡ true
    → (descend tmp str word ≡ some none) × ((u : List ℕ) → search_path tmp u ≡ some false)
unfolding descend search_path
descend_null null str word h = (refl, λ u. refl)
descend_null freed str word h = cc h
descend_null (node children is_leaf) str word h = cc h

descend_step :
    (children : ℕ → Node) (is_leaf : Bool) (c : ℕ) (str word : List ℕ)
    → IsLower c
    → length word < max_word_len
    → descend (node children is_leaf) (c ∷ str) word
      ≡ descend (children (letter c)) str (word ++ c ∷ [])
unfolding descend
descend_step children is_leaf c str word low q =
    let room : ltb (length word) max_word_len ≡ true = ground arith in
    rw (room, letter-lt c low) refl

pub descend-cases :
    (room : ℕ) (root : Node) (str word : List ℕ)
    → is_null root ≡ false
    → fits room root ≡ true
    → IsWord str
    → length word + room ≤ max_word_len
    → length word + length str ≤ max_word_len
    → Missed root str word ⊎ Reached room root str word
unfolding descend fits
descend-cases room null str word there h low q p = cc there
descend-cases zero freed str word there h low q p = cc h
descend-cases (suc room) freed str word there h low q p = cc h
descend-cases room (node children is_leaf) [] word there h low q p = inr (record {
  tmp = node children is_leaf;
  left = room;
  run = rw (append-nil word) refl;
  there = refl;
  small = h;
  bound = omega arith;
  leading = refl;
  words = λ u low. refl;
})
descend-cases room (node children is_leaf) (c ∷ str) word there h (low, rest) q p =
    let step = descend_step children is_leaf c str word low (omega arith) in
    let longer = length-append word (c ∷ []) in
    let below26 : letter c < children_no = (let is = letter-lt c low in ground arith) in
    let same = append_assoc word (c ∷ []) str in
    elim (Bool-cases (is_null (children (letter c)))) [
      | inl absent ↦
          let (run, words) = descend_null (children (letter c)) str (word ++ c ∷ []) absent in
          inl (record {
            run = step ∙ run;
            missing = not-leads-null (children (letter c)) str absent;
            words = λ u low'. search_path-cons children is_leaf c (str ++ u) low ∙ words (str ++ u);
          })
      | inr there' ↦
          let (left, e, h') = fits-child room children is_leaf (letter c) h below26 there' in
          elim (descend-cases left (children (letter c)) str (word ++ c ∷ []) there' h' rest
            (omega arith) (omega arith)) [
              | inl missed ↦ inl (record {
                run = step ∙ missed.run;
                missing = missed.missing;
                words = λ u low'.
                    search_path-cons children is_leaf c (str ++ u) low ∙ missed.words u low';
              })
              | inr reached ↦ inr (record {
                tmp = reached.tmp;
                left = reached.left;
                run = step ∙ (reached.run ∙ ap (λ w. some (some (reached.tmp, w))) same);
                there = reached.there;
                small = reached.small;
                bound = (let b = reached.bound in omega arith);
                leading = reached.leading;
                words = λ u low'.
                    search_path-cons children is_leaf c (str ++ u) low ∙ reached.words u low';
              })
            ]
    ]

abbrev pub starts : List ℕ → List ℕ → Bool
starts [] word = true
starts (c ∷ str) [] = false
starts (c ∷ str) (d ∷ word) = if d == c then starts str word else false

-- 1 for a word of the tree that starts with the prefix, 0 for any other
abbrev pub matching : Node → List ℕ → List ℕ → ℕ
matching root str word = if starts str word then once (search root (some word)) else 0

rest_starts :
    (f : List ℕ → ℕ) (str v : List ℕ)
    → at_rest (λ u. f (str ++ u)) (strip str v) ≡ (if starts str v then f v else 0)
rest_starts f [] v = refl
rest_starts f (c ∷ str) [] = refl
rest_starts f (c ∷ str) (d ∷ v) = elim (Bool-cases (d == c)) [
  | inl equal ↦
      let e : d ≡ c = (==_iff d c).0 equal in
      rw equal (rest_starts (λ u. f (c ∷ u)) str v ∙ rw e refl)
  | inr other ↦ rw other refl
]

rest_same :
    (f g : List ℕ → ℕ) (rest : Option (List ℕ))
    → ((u : List ℕ) → rest ≡ some u → f u ≡ g u)
    → at_rest f rest ≡ at_rest g rest
rest_same f g none h = refl
rest_same f g (some u) h = h u refl

-- The words of the node that the prefix leads to are those of the tree that start with it.
matching_words :
    (root tmp : Node) (str v : List ℕ)
    → is_null root ≡ false
    → IsWord v
    → ((u : List ℕ) → IsWord u → search_path root (str ++ u) ≡ search_path tmp u)
    → below tmp str v ≡ matching root str v
unfolding search
matching_words null tmp str v there low words = cc there
matching_words freed tmp str v there low words =
    rest_same (λ u. once (search_path tmp u)) (λ u. once (search_path freed (str ++ u)))
      (strip str v) (λ u e. ap once (sym (words u (strip-IsWord str v u low e))))
    ∙ rest_starts (λ u. once (search_path freed u)) str v
matching_words (node children is_leaf) tmp str v there low words =
    rest_same (λ u. once (search_path tmp u))
      (λ u. once (search_path (node children is_leaf) (str ++ u))) (strip str v)
      (λ u e. ap once (sym (words u (strip-IsWord str v u low e))))
    ∙ rest_starts (λ u. once (search_path (node children is_leaf) u)) str v

pub by_prefix :
    (root : Node) (str : List ℕ) (r : Option (List (List ℕ)))
    → is_null root ≡ false
    → (descend root str [] >>= λ found. print_found found) ≡ r
    → print_leafs_by_prefix root (some str) ≡ r
unfolding print_leafs_by_prefix
by_prefix null str r there e = cc there
by_prefix freed str r there e = e
by_prefix (node children is_leaf) str r there e = e

-- On a tree without freed nodes and with no node deeper than 128 letters, for a prefix of at most
-- 128 lower-case letters, trie_print_leafs_by_prefix prints the words of the tree that start with
-- the prefix, each once, and no other words over the lower-case letters.
pub print_leafs_by_prefix_correct :
    (root : Node) (str : List ℕ)
    → is_null root ≡ false
    → fits max_word_len root ≡ true
    → IsWord str
    → length str ≤ max_word_len
    → Lists (print_leafs_by_prefix root (some str)) (matching root str)
print_leafs_by_prefix_correct root str there h low q =
    elim (descend-cases max_word_len root str [] there h low (omega arith) (omega arith)) [
      | inl missed ↦ record {
        out = [];
        runs = by_prefix root str (some []) there (rw missed.run refl);
        counts = λ v low'.
            sym (no_words null str v refl)
            ∙ matching_words root null str v there low'
                (λ u r. missed.words u r ∙ sym (search_path-null u));
      }
      | inr reached ↦
          let b : length str + reached.left ≤ max_word_len =
            (let b' = reached.bound in omega arith) in
          let lists =
            print_leafs_correct reached.left reached.tmp str reached.there reached.small b in
          record {
            out = lists.out;
            runs = by_prefix root str (some lists.out) there (rw reached.run lists.runs);
            counts = λ v low'.
                lists.counts v low'
                ∙ matching_words root reached.tmp str v there low' reached.words;
          }
    ]
