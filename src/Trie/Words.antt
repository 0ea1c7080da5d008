-- ===== src/Trie/Words.antt =====
-- The words over the 26 letters, and the nodes that a word leads to.
use data_structures.Prelude.{
  ℕ, ◌≤◌, ◌<◌, ◌≡◌, refl, arith, Bool, true, false, some, List, [], ◌∷◌, All, if◌then◌else◌, ltb,
  ◌==◌, inl, inr, Bool-cases, all_below-get, all_below-intro,
}
use data_structures.Trie.{
  Node, null, node, letter, set_child, fresh, is_whole, children_no, search_path,
}

-- a letter from 'a' to 'z'
abbrev pub IsLower : ℕ → Type 0
IsLower c = (97 ≤ c) × (c < 123)

abbrev pub IsWord : List ℕ → Type 0
IsWord = All IsLower

abbrev pub same : List ℕ → List ℕ → Bool
same [] [] = true
same [] (c ∷ str) = false
same (d ∷ word) [] = false
same (d ∷ word) (c ∷ str) = if d == c then same word str else false

pub letter-lt : (c : ℕ) → IsLower c → ltb (letter c) children_no ≡ true
letter-lt c (low, high) = ground arith

pub letter_eq : (c d : ℕ) → IsLower c → IsLower d → (letter c == letter d) ≡ (d == c)
letter_eq c d (low, high) (low', high') = ground arith

-- a node with no children leads to no word
pub search_path-fresh : (word : List ℕ) → IsWord word → search_path fresh word ≡ some false
unfolding search_path
search_path-fresh [] h = refl
search_path-fresh (c ∷ word) (low, h) = rw (letter-lt c low) refl

pub search_path-null : (word : List ℕ) → search_path null word ≡ some false
unfolding search_path
search_path-null word = refl

pub search_path-cons :
    (children : ℕ → Node) (is_leaf : Bool) (c : ℕ) (word : List ℕ)
    → IsLower c
    → search_path (node children is_leaf) (c ∷ word) ≡ search_path (children (letter c)) word
unfolding search_path
search_path-cons children is_leaf c word low = rw (letter-lt c low) refl

pub is_whole-child :
    (children : ℕ → Node) (is_leaf : Bool) (i : ℕ)
    → is_whole (node children is_leaf) ≡ true
    → ltb i children_no ≡ true
    → is_whole (children i) ≡ true
is_whole-child children is_leaf i h q =
    all_below-get children_no (λ i. is_whole (children i)) i h (ground arith)

pub is_whole-set :
    (children : ℕ → Node) (is_leaf : Bool) (ch : ℕ) (child : Node)
    → is_whole (node children is_leaf) ≡ true
    → is_whole child ≡ true
    → is_whole (node (set_child children ch child) is_leaf) ≡ true
is_whole-set children is_leaf ch child h k =
    all_below-intro children_no (λ i. is_whole (set_child children ch child i)) pointwise
  where
    pointwise : (i : ℕ) → i < children_no → is_whole (set_child children ch child i) ≡ true
    pointwise i q = elim (Bool-cases (ch == i)) [
      | inl same ↦ rw same k
      | inr other ↦ rw other (all_below-get children_no (λ i. is_whole (children i)) i h q)
    ]
