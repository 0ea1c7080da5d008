-- ===== src/Trie/Insert.antt =====
-- What `trie_insert` does to the words of a tree.
use data_structures.Prelude.{
  ℕ, ◌+◌, ◌≡◌, refl, ap, Bool, true, false, ◌&&◌, Option, some, List, [], ◌∷◌, if◌then◌else◌, ◌==◌,
  inl, inr, Bool-cases, ◌>>=◌, ==_iff, ◌∙◌, sym,
}
use mathlib.Core.Option.{some-injective}
use data_structures.Trie.{
  Node, null, freed, node, letter, set_child, fresh, is_null, is_whole, search_path, insert_path,
  insert, search,
}
use data_structures.Trie.Words.{
  IsLower, IsWord, same, letter-lt, letter_eq, search_path-fresh, is_whole-child, is_whole-set,
}

-- The words after an insertion at a node that answers `out`.
pub record Inserted (allocated : ℕ → Bool) (tmp : Node) (str : List ℕ) (out : Option (Node × Bool))
    : Type 0 where
  pub tree : Node
  pub done : Bool
  pub run : out ≡ some (tree, done)
  pub present : is_null tree ≡ false
  pub completes : ((i : ℕ) → allocated i ≡ true) → done ≡ true
  pub whole : is_whole tree ≡ true
  pub words :
      (word : List ℕ)
      → IsWord word
      → search_path tree word ≡ (if done && same word str then some true else search_path tmp word)

and_false : (b : Bool) → (b && false) ≡ false
and_false true = refl
and_false false = refl

words_below :
    (allocated : ℕ → Bool) (children : ℕ → Node) (is_leaf : Bool) (c : ℕ) (str : List ℕ)
    (tmp : Node)
    → {out : Option (Node × Bool)} (v : Inserted allocated tmp str out) → IsLower c
    → ((word : List ℕ)
        → IsWord word
        → search_path tmp word ≡ search_path (children (letter c)) word)
    → (word : List ℕ) → IsWord word
    → search_path (node (set_child children (letter c) v.tree) is_leaf) word ≡ (
        if v.done && same word (c ∷ str)
        then some true
        else search_path (node children is_leaf) word)
unfolding search_path
words_below allocated children is_leaf c str tmp v low tmp_words [] h = rw (and_false v.done) refl
words_below allocated children is_leaf c str tmp v low tmp_words (d ∷ word) (low', h) =
    rw (letter-lt d low', letter_eq c d low low')
      (elim (Bool-cases (d == c)) [
        | inl equal ↦
            let same_letter : d ≡ c = (==_iff d c).0 equal in
            rw (equal, same_letter) (v.words word h ∙ rw (tmp_words word h) refl)
        | inr other ↦ rw (other, and_false v.done) refl
      ])

below :
    (allocated : ℕ → Bool) (children : ℕ → Node) (is_leaf : Bool) (c : ℕ) (str : List ℕ)
    (tmp : Node) (out : Option (Node × Bool))
    → IsLower c
    → is_whole (node children is_leaf) ≡ true
    → ((word : List ℕ)
        → IsWord word
        → search_path tmp word ≡ search_path (children (letter c)) word)
    → Inserted allocated tmp str out
    → Inserted allocated
        (node children is_leaf)
        (c ∷ str)
        (out >>= λ out. some (node (set_child children (letter c) out.0) is_leaf, out.1))
below allocated children is_leaf c str tmp out low h tmp_words v = record {
  tree = node (set_child children (letter c) v.tree) is_leaf;
  done = v.done;
  run = rw v.run refl;
  present = refl;
  completes = v.completes;
  whole = is_whole-set children is_leaf (letter c) v.tree h v.whole;
  words = words_below allocated children is_leaf c str tmp v low tmp_words;
}

null-search_path :
    (tmp : Node) (word : List ℕ) → is_null tmp ≡ true → search_path tmp word ≡ some false
unfolding search_path
null-search_path null word h = refl
null-search_path freed word h = cc h
null-search_path (node children is_leaf) word h = cc h

word_ends :
    (children : ℕ → Node) (is_leaf : Bool) (word : List ℕ)
    → IsWord word
    → search_path (node children true) word
      ≡ (if same word [] then some true else search_path (node children is_leaf) word)
unfolding search_path
word_ends children is_leaf [] h = refl
word_ends children is_leaf (d ∷ word) h = refl

-- an allocation failed here
unchanged :
    (allocated : ℕ → Bool) (i : ℕ) (children : ℕ → Node) (is_leaf : Bool) (str : List ℕ)
    → allocated i ≡ false
    → is_whole (node children is_leaf) ≡ true
    → Inserted allocated (node children is_leaf) str (some (node children is_leaf, false))
unchanged allocated i children is_leaf str failed h = record {
  tree = node children is_leaf;
  done = false;
  run = refl;
  present = refl;
  completes = λ all. cc (all i, failed);
  whole = h;
  words = λ word q. refl;
}

insert_path-Inserted :
    (allocated : ℕ → Bool) (i : ℕ) (tmp : Node) (str : List ℕ)
    → is_null tmp ≡ false
    → is_whole tmp ≡ true
    → IsWord str
    → Inserted allocated tmp str (insert_path allocated i tmp str)
unfolding insert_path
insert_path-Inserted allocated i null str p h w = cc p
insert_path-Inserted allocated i freed str p h w = cc h
insert_path-Inserted allocated i (node children is_leaf) [] p h w = record {
  tree = node children true;
  done = true;
  run = refl;
  present = refl;
  completes = λ all. refl;
  whole = h;
  words = word_ends children is_leaf;
}
insert_path-Inserted allocated i (node children is_leaf) (c ∷ str) p h (low, w) =
    rw (letter-lt c low) (elim (Bool-cases (is_null (children (letter c)))) [
      | inl absent ↦ rw absent (elim (Bool-cases (allocated i)) [
        | inl made ↦ rw made (
            below allocated children is_leaf c str fresh _ low h
              (λ word q.
                search_path-fresh word q ∙ sym (null-search_path (children (letter c)) word absent))
              (insert_path-Inserted allocated (i + 1) fresh str refl refl w))
        | inr failed ↦ rw failed (unchanged allocated i children is_leaf (c ∷ str) failed h)
      ])
      | inr there ↦ rw there (
          below allocated children is_leaf c str (children (letter c)) _ low h (λ word q. refl)
            (insert_path-Inserted allocated (i + 1) (children (letter c)) str there
              (is_whole-child children is_leaf (letter c) h (letter-lt c low)) w))
    ])

pub search-path : (root : Node) (word : List ℕ) → search root (some word) ≡ search_path root word
unfolding search search_path
search-path null word = refl
search-path freed word = refl
search-path (node children is_leaf) word = refl

insert-path :
    (allocated : ℕ → Bool) (root : Node) (str : List ℕ)
    → is_null root ≡ false
    → insert allocated root (some str) ≡ insert_path allocated 0 root str
unfolding insert
insert-path allocated null str p = cc p
insert-path allocated freed str p = refl
insert-path allocated (node children is_leaf) str p = refl

-- If no allocation fails, trie_insert of a word of lower-case letters into a tree without freed
-- nodes returns the root of such a tree, which holds that word and exactly the words that the
-- tree held.
pub insert_correct :
    (allocated : ℕ → Bool) (root : Node) (str : List ℕ)
    → ((i : ℕ) → allocated i ≡ true)
    → is_null root ≡ false
    → is_whole root ≡ true
    → IsWord str
    → (root' : Node) × (insert allocated root (some str) ≡ some (root', true))
      × (is_whole root' ≡ true)
      × ((word : List ℕ)
          → IsWord word
          → search root' (some word)
            ≡ (if same word str then some true else search root (some word)))
insert_correct allocated root str all p h w =
    let v = insert_path-Inserted allocated 0 root str p h w in
    let done = v.completes all in
    (
      v.tree,
      insert-path allocated root str p ∙ v.run ∙ ap (λ b. some (v.tree, b)) done,
      v.whole,
      λ word q. search-path v.tree word ∙ v.words word q ∙ rw (search-path root word, done) refl,
    )

-- If trie_insert returns NULL for a word of lower-case letters, because an allocation failed, the
-- tree still has no freed nodes and holds exactly the words that it held.
pub insert_refused :
    (allocated : ℕ → Bool) (root root' : Node) (str : List ℕ)
    → is_null root ≡ false
    → is_whole root ≡ true
    → IsWord str
    → insert allocated root (some str) ≡ some (root', false)
    → (is_whole root' ≡ true)
      × ((word : List ℕ) → IsWord word → search root' (some word) ≡ search root (some word))
insert_refused allocated root root' str p h w e =
    let v = insert_path-Inserted allocated 0 root str p h w in
    let same_out = some-injective _ _ (sym (insert-path allocated root str p ∙ v.run) ∙ e) in
    let tree : v.tree ≡ root' = ap (λ out. out.0) same_out in
    let done : v.done ≡ false = ap (λ out. out.1) same_out in
    (
      rw (← tree) v.whole,
      λ word q.
          rw (← tree)
            (search-path v.tree word ∙ v.words word q ∙ rw (search-path root word, done) refl),
    )
