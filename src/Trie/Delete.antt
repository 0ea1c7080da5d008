-- ===== src/Trie/Delete.antt =====
-- What `trie_delete` does to the words of a tree.
use data_structures.Prelude.{
  ℕ, zero, suc, ◌≤◌, ◌<◌, ◌≡◌, refl, arith, sym, ◌∙◌, Bool, true, false, Option, none, some, List,
  [], ◌∷◌, if◌then◌else◌, ltb, ◌==◌, ==_iff, inl, inr, Bool-cases, length, ℤ, pos,
}
use data_structures.Trie.{
  Node, null, freed, node, letter, set_child, is_null, is_whole, search_path, search, cut_child,
  children_no, cut, cut_root, delete_at, delete, insert, insert_path, longest_prefix, prefix_loop,
}
use data_structures.Trie.Words.{
  IsWord, letter-lt, letter_eq, search_path-null, is_whole-child, is_whole-set,
}
use data_structures.Trie.Insert.{search-path}
use data_structures.Trie.Prefix.{leads, leads-not_null, longest_prefix_correct}

-- The word starts with the first `n` letters of the string.
abbrev pub begins : ℕ → List ℕ → List ℕ → Bool
begins zero str word = true
begins (suc n) [] word = false
begins (suc n) (c ∷ str) [] = false
begins (suc n) (c ∷ str) (d ∷ word) = if d == c then begins n str word else false

-- A tree that has lost the words that start with the first `n` letters of the string.
record Cut (n : ℕ) (tmp : Node) (str : List ℕ) (out : Option Node) : Type 0 where
  tree : Node
  run : out ≡ some tree
  whole : is_whole tree ≡ true
  words :
      (word : List ℕ)
      → IsWord word
      → search_path tree word ≡ (if begins n str word then some false else search_path tmp word)

words_set :
    (n : ℕ) (children : ℕ → Node) (is_leaf : Bool) (c : ℕ) (str : List ℕ) (child : Node)
    → IsWord (c ∷ str)
    → ((word : List ℕ)
        → IsWord word
        → search_path child word
          ≡ (if begins n str word then some false else search_path (children (letter c)) word))
    → (word : List ℕ) → IsWord word
    → search_path (node (set_child children (letter c) child) is_leaf) word ≡ (
        if begins (suc n) (c ∷ str) word
        then some false
        else search_path (node children is_leaf) word)
unfolding search_path
words_set n children is_leaf c str child (low, w) below [] q = refl
words_set n children is_leaf c str child (low, w) below (d ∷ word) (low', q) =
    rw (letter-lt d low', letter_eq c d low low')
      (elim (Bool-cases (d == c)) [
        | inl equal ↦
            let same_letter : d ≡ c = (==_iff d c).0 equal in rw (equal, same_letter) (below word q)
        | inr other ↦ rw other refl
      ])

cut-Cut :
    (n : ℕ) (tmp : Node) (str : List ℕ)
    → leads tmp str ≡ true
    → is_whole tmp ≡ true
    → IsWord str
    → suc n ≤ length str
    → Cut (suc n) tmp str (cut n tmp str)
unfolding cut cut_child
cut-Cut n null str h p w b = cc h
cut-Cut n freed str h p w b = cc h
cut-Cut n (node children is_leaf) [] h p w b = absurd (omega arith)
cut-Cut zero (node children is_leaf) (c ∷ str) h p (low, w) b =
    let child_whole = is_whole-child children is_leaf (letter c) p (letter-lt c low) in
    record {
      tree = node (set_child children (letter c) null) is_leaf;
      run = rw (letter-lt c low, leads-not_null (children (letter c)) str h, child_whole) refl;
      whole = is_whole-set children is_leaf (letter c) null p refl;
      words = words_set 0 children is_leaf c str null (low, w) (λ word q. search_path-null word);
    }
cut-Cut (suc n) (node children is_leaf) (c ∷ str) h p (low, w) b =
    let child_whole = is_whole-child children is_leaf (letter c) p (letter-lt c low) in
    let deeper = cut-Cut n (children (letter c)) str h child_whole w (omega arith) in
    record {
      tree = node (set_child children (letter c) deeper.tree) is_leaf;
      run = rw (letter-lt c low, deeper.run) refl;
      whole = is_whole-set children is_leaf (letter c) deeper.tree p deeper.whole;
      words = words_set (suc n) children is_leaf c str deeper.tree (low, w) deeper.words;
    }

delete-at :
    (root : Node) (str : List ℕ) (prefix : ℤ)
    → is_null root ≡ false
    → is_whole root ≡ true
    → longest_prefix root (some str) ≡ some prefix
    → delete root (some str) ≡ delete_at root str prefix
unfolding delete
delete-at null str prefix p q e = cc p
delete-at freed str prefix p q e = cc q
delete-at (node children is_leaf) str prefix p q e = rw e refl

module _ (root : Node) (str : List ℕ) (present : is_null root ≡ false)
    (whole : is_whole root ≡ true) (lower : IsWord str) (short : length str < 256) where
  found :
      (n : ℕ)
      → longest_prefix root (some str) ≡ some (pos n)
      → (leads root str ≡ true) × (n ≤ length str)
  found n e = elim (longest_prefix_correct root str present whole lower short) [
    | inl (missing, r) ↦ cc (sym r ∙ e)
    | inr (there, (m, r, last)) ↦
        let both : some (pos m) ≡ some (pos n) = sym r ∙ e in
        let same : m ≡ n = ground arith in (there, omega (arith, last.inside))
  ]

  -- On a tree without freed nodes, for a string of less than 256 lower-case letters with a
  -- longest prefix above 0, trie_delete returns the root and leaves a tree without freed nodes,
  -- which holds exactly the words that do not start with that prefix of the string.
  pub delete_correct :
      (n : ℕ)
      → longest_prefix root (some str) ≡ some (pos (suc n))
      → (root' : Node) × (delete root (some str) ≡ some (root', true))
        × (is_whole root' ≡ true)
        × ((word : List ℕ)
            → IsWord word
            → search root' (some word)
              ≡ (if begins (suc n) str word then some false else search root (some word)))
  unfolding delete_at
  delete_correct n e =
      let (there, inside) = found (suc n) e in
      let v = cut-Cut n root str there whole lower inside in
      (
        v.tree,
        delete-at root str (pos (suc n)) present whole e ∙ rw v.run refl,
        v.whole,
        λ word q. search-path v.tree word ∙ v.words word q ∙ rw (search-path root word) refl,
      )

-- A child that was destroyed, and to which a pointer is left.
dangles :
    (children : ℕ → Node) (is_leaf : Bool) (c : ℕ) (str : List ℕ)
    → leads (node children is_leaf) (c ∷ str) ≡ true
    → is_whole (node children is_leaf) ≡ true
    → IsWord (c ∷ str)
    → cut_root (node children is_leaf) (c ∷ str)
      ≡ some (node (set_child children (letter c) freed) is_leaf)
unfolding cut_root cut_child
dangles children is_leaf c str h p (low, w) =
    rw
      (
        letter-lt c low,
        leads-not_null (children (letter c)) str h,
        is_whole-child children is_leaf (letter c) p (letter-lt c low),
      )
      refl

same_letter : (i : ℕ) → (i == i) ≡ true
same_letter i = ground arith

-- A deletion that meets the freed child reads it.
delete_at-freed :
    (children : ℕ → Node) (is_leaf : Bool) (c prefix : ℕ)
    → ltb (letter c) children_no ≡ true
    → delete_at (node (set_child children (letter c) freed) is_leaf) (c ∷ []) (pos prefix) ≡ none
unfolding delete_at cut cut_root cut_child
delete_at-freed children is_leaf c zero low = rw (low, same_letter (letter c)) refl
delete_at-freed children is_leaf c (suc zero) low = rw (low, same_letter (letter c)) refl
delete_at-freed children is_leaf c (suc (suc n)) low = rw (low, same_letter (letter c)) refl

delete-freed :
    (children : ℕ → Node) (is_leaf : Bool) (c : ℕ) (word : List ℕ)
    → ltb (letter c) children_no ≡ true
    → delete (node (set_child children (letter c) freed) is_leaf) (some (c ∷ word)) ≡ none
unfolding delete longest_prefix prefix_loop
delete-freed children is_leaf c (d ∷ word) low = rw (low, same_letter (letter c)) refl
delete-freed children is_leaf c [] low =
    rw (low, same_letter (letter c)) (delete_at-freed children is_leaf c _ low)

-- On a tree without freed nodes, for a string of 1 to 255 lower-case letters with a longest
-- prefix of 0, trie_delete returns a tree in which the child for the first letter is freed but
-- still pointed to: a search, an insertion or a deletion of a string that starts with that letter
-- then reads freed data.
pub delete-only :
    (children : ℕ → Node) (is_leaf : Bool) (c : ℕ) (str word : List ℕ)
    → is_whole (node children is_leaf) ≡ true
    → IsWord (c ∷ str)
    → length (c ∷ str) < 256
    → longest_prefix (node children is_leaf) (some (c ∷ str)) ≡ some (pos 0)
    → (root' : Node) × (delete (node children is_leaf) (some (c ∷ str)) ≡ some (root', true))
      × (search root' (some (c ∷ word)) ≡ none)
      × ((allocated : ℕ → Bool) → insert allocated root' (some (c ∷ word)) ≡ none)
      × (delete root' (some (c ∷ word)) ≡ none)
unfolding delete_at search search_path insert insert_path delete longest_prefix
delete-only children is_leaf c str word p (low, w) short e =
    let (there, inside) = found (node children is_leaf) (c ∷ str) refl p (low, w) short 0 e in
    (
      node (set_child children (letter c) freed) is_leaf,
      delete-at (node children is_leaf) (c ∷ str) (pos 0) refl p e
          ∙ rw (dangles children is_leaf c str there p (low, w)) refl,
      rw (letter-lt c low, same_letter (letter c)) refl,
      λ allocated. rw (letter-lt c low, same_letter (letter c)) refl,
      delete-freed children is_leaf c word (letter-lt c low),
    )
