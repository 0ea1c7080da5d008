-- ===== src/Trie/Listing.antt =====
-- Lists of words, counted, and the loop over the children of a node that lists words.
use data_structures.Prelude.{
  ℕ, zero, suc, ◌+◌, ◌<◌, ◌≡◌, refl, arith, sym, ◌∙◌, Bool, true, false, Option, none, some, List,
  [], ◌∷◌, ◌++◌, if◌then◌else◌, ◌==◌, ==_iff, inl, inr, Bool-cases,
}
use data_structures.Trie.{children_no, letter}
use mathlib.Core.Option.{some-injective}
use data_structures.Trie.Words.{IsLower, IsWord, same}

abbrev pub one_if : Bool → ℕ
one_if true = 1
one_if false = 0

-- how often a word stands in a list
abbrev pub occurrences : List ℕ → List (List ℕ) → ℕ
occurrences word [] = 0
occurrences word (w ∷ ws) = one_if (same word w) + occurrences word ws

-- what is left of a word after a prefix of it
abbrev pub strip : List ℕ → List ℕ → Option (List ℕ)
strip [] word = some word
strip (c ∷ prefix) [] = none
strip (c ∷ prefix) (d ∷ word) = if d == c then strip prefix word else none

abbrev pub at_rest : (List ℕ → ℕ) → Option (List ℕ) → ℕ
at_rest f none = 0
at_rest f (some rest) = f rest

-- the count for the child of the first letter
abbrev pub at_child : (ℕ → List ℕ → ℕ) → List ℕ → ℕ
at_child f [] = 0
at_child f (d ∷ word) = f (letter d) word

unfoldable pub sum_below : ℕ → (ℕ → ℕ) → ℕ
sum_below zero f = 0
sum_below (suc n) f = sum_below n f + f n

pub occurrences-append :
    (word : List ℕ) (xs ys : List (List ℕ))
    → occurrences word (xs ++ ys) ≡ occurrences word xs + occurrences word ys
occurrences-append word [] ys = omega arith
occurrences-append word (x ∷ xs) ys = omega (arith, occurrences-append word xs ys)

pub sum_below-cong :
    (n : ℕ) (f g : ℕ → ℕ) → ((i : ℕ) → i < n → f i ≡ g i) → sum_below n f ≡ sum_below n g
unfolding sum_below
sum_below-cong zero f g h = refl
sum_below-cong (suc n) f g h =
    let last = h n (omega arith) in omega (arith, sum_below-cong n f g (λ i q. h i (omega arith)))

-- One summand at most is not zero.
pub sum_below-zero : (n : ℕ) (f : ℕ → ℕ) → ((i : ℕ) → i < n → f i ≡ 0) → sum_below n f ≡ 0
unfolding sum_below
sum_below-zero zero f h = refl
sum_below-zero (suc n) f h =
    let last = h n (omega arith) in omega (arith, sum_below-zero n f (λ i q. h i (omega arith)))

sum_below-one :
    (n : ℕ) (f : ℕ → ℕ) (k : ℕ)
    → k < n
    → ((i : ℕ) → (i == k) ≡ false → f i ≡ 0)
    → sum_below n f ≡ f k
unfolding sum_below
sum_below-one zero f k q h = absurd (omega arith)
sum_below-one (suc n) f k q h = elim (Bool-cases (n == k)) [
  | inl last ↦
      let e : n ≡ k = (==_iff n k).0 last in
      let rest = sum_below-zero n f (λ i r. h i (ground arith)) in rw (← e) (omega (arith, rest))
  | inr other ↦
      let here = h n other in
      let rest = sum_below-one n f k (ground arith) h in omega (arith, rest, here)
]

pub strip-append :
    (prefix : List ℕ) (c : ℕ) (word : List ℕ) (f : List ℕ → ℕ)
    → at_rest f (strip (prefix ++ c ∷ []) word)
      ≡ at_rest (λ rest. at_rest f (strip (c ∷ []) rest)) (strip prefix word)
strip-append [] c word f = refl
strip-append (b ∷ prefix) c [] f = refl
strip-append (b ∷ prefix) c (d ∷ word) f = elim (Bool-cases (d == b)) [
  | inl equal ↦ rw equal (strip-append prefix c word f)
  | inr other ↦ rw other refl
]

-- The rest of a word over the letters is a word over the letters.
pub strip-IsWord :
    (prefix word rest : List ℕ) → IsWord word → strip prefix word ≡ some rest → IsWord rest
strip-IsWord [] word rest h e = rw (sym (some-injective word rest e)) h
strip-IsWord (c ∷ prefix) [] rest h e = cc e
strip-IsWord (c ∷ prefix) (d ∷ word) rest (low, h) e = elim (Bool-cases (d == c)) [
  | inl equal ↦ strip-IsWord prefix word rest h (rw equal at e)
  | inr other ↦ cc (rw other at e)
]

other_letter : (d i : ℕ) → IsLower d → (i == letter d) ≡ false → (d == i + 97) ≡ false
other_letter d i (low, high) other = ground arith

same_letter : (d : ℕ) → IsLower d → (d == letter d + 97) ≡ true
same_letter d (low, high) = ground arith

-- The first letter of the rest picks the child.
pub one_child :
    (f : ℕ → List ℕ → ℕ) (rest : List ℕ)
    → IsWord rest
    → sum_below children_no (λ i. at_rest (f i) (strip ((i + 97) ∷ []) rest)) ≡ at_child f rest
one_child f [] h = sum_below-zero children_no (λ i. 0) (λ i q. refl)
one_child f (d ∷ rest) (low, h) =
    let summand : ℕ → ℕ = λ i. at_rest (f i) (strip ((i + 97) ∷ []) (d ∷ rest)) in
    let below : letter d < children_no = (let (a, b) = low in ground arith) in
    sum_below-one children_no summand (letter d) below
      (λ i other. rw (other_letter d i low other) refl)
    ∙ rw (same_letter d low) refl
