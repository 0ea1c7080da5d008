-- ===== src/Trie/Prefix.antt =====
-- What `trie_longest_prefix` finds: the last node on the path of a string that has another child.
use data_structures.Prelude.{
  ==_iff, sym, ap, ◌≢◌, not, ◌&&◌, ◌==◌, ℕ, zero, suc, ◌+◌, ◌%◌, ◌≤◌, ◌<◌, ◌≡◌, refl, arith, ◌∙◌,
  Bool, true, false, Option, some, List, [], ◌∷◌, if◌then◌else◌, ◌⊎◌, inl, inr, Bool-cases, length,
  ℤ, pos, negsuc,
}
use data_structures.Trie.{
  Node, null, freed, node, letter, is_null, is_whole, children_no, branches, prefix_loop,
  longest_prefix,
}
use data_structures.Trie.Words.{IsWord, letter-lt, is_whole-child}

-- all nodes on the path of the string are there
abbrev pub leads : Node → List ℕ → Bool
leads null str = false
leads freed str = false
leads (node children is_leaf) [] = true
leads (node children is_leaf) (c ∷ str) = leads (children (letter c)) str

-- A child besides the one at `ch`, among those below `n`.
pub record OtherChild (n : ℕ) (children : ℕ → Node) (ch : ℕ) : Type 0 where
  pub i : ℕ
  pub below : i < n
  pub other : i ≢ ch
  pub there : is_null (children i) ≡ false

-- The node `k` steps along the path has a child besides that for the next letter.
abbrev pub BranchesAt : ℕ → Node → List ℕ → Type 0
BranchesAt k null str = ⊥
BranchesAt k freed str = ⊥
BranchesAt k (node children is_leaf) [] = ⊥
BranchesAt zero (node children is_leaf) (c ∷ str) = OtherChild children_no children (letter c)
BranchesAt (suc k) (node children is_leaf) (c ∷ str) = BranchesAt k (children (letter c)) str

-- `m` steps from the top: the last branching, if there is one, is that of the step before.
pub record IsLast (m : ℕ) (root : Node) (str : List ℕ) : Type 0 where
  pub inside : m ≤ length str
  pub there : (k : ℕ) → m ≡ suc k → BranchesAt k root str
  pub none_after : (k : ℕ) → m ≤ k → ¬ BranchesAt k root str

-- One round of the search for another child.
found_here :
    (before here absent : Bool)
    → before ≡ false
    → (if before then true else not here && not absent) ≡ true
    → (here ≡ false) × (absent ≡ false)
found_here true here absent p h = cc p
found_here false true absent p h = cc h
found_here false false true p h = cc h
found_here false false false p h = (refl, refl)

not_found :
    (before here absent : Bool)
    → (if before then true else not here && not absent) ≡ false
    → (before ≡ false) × (here ≡ false → absent ≡ true)
not_found true here absent h = cc h
not_found false true absent h = (refl, λ p. cc p)
not_found false false true h = (refl, λ p. refl)
not_found false false false h = cc h

branches-OtherChild :
    (n : ℕ) (children : ℕ → Node) (ch : ℕ)
    → branches n children ch ≡ true
    → OtherChild n children ch
unfolding branches
branches-OtherChild zero children ch h = cc h
branches-OtherChild (suc n) children ch h = elim (Bool-cases (branches n children ch)) [
  | inl before ↦
      let v = branches-OtherChild n children ch before in
      record { i = v.i; below = omega (arith, v.below); other = v.other; there = v.there }
  | inr none_before ↦
      let (differs, there) =
        found_here (branches n children ch) (n == ch) (is_null (children n)) none_before h in
      record { i = n; below = omega arith; other = λ e. ground arith; there = there }
]

only-OtherChild :
    (n : ℕ) (children : ℕ → Node) (ch : ℕ)
    → branches n children ch ≡ false
    → ¬ OtherChild n children ch
unfolding branches
only-OtherChild zero children ch h v = absurd (omega (arith, v.below))
only-OtherChild (suc n) children ch h v =
    let (none_before, here) =
      not_found (branches n children ch) (n == ch) (is_null (children n)) h in
    elim (Bool-cases (v.i == n)) [
      | inl last ↦
          let same : v.i ≡ n = (==_iff v.i n).0 last in
          let other : n ≢ ch = λ e. v.other (same ∙ e) in
          let differs : (n == ch) ≡ false = ground arith in
          let there : is_null (children n) ≡ false =
            ap (λ j. is_null (children j)) (sym same) ∙ v.there in
          cc (sym (here differs) ∙ there)
      | inr earlier ↦
          let less : v.i < n = (let b = v.below in ground arith) in
          only-OtherChild n children ch none_before
            (record { i = v.i; below = less; other = v.other; there = v.there })
    ]

pub not-leads-null : (tmp : Node) (str : List ℕ) → is_null tmp ≡ true → leads tmp str ≡ false
not-leads-null null str h = refl
not-leads-null freed str h = cc h
not-leads-null (node children is_leaf) str h = cc h

pub leads-not_null : (tmp : Node) (str : List ℕ) → leads tmp str ≡ true → is_null tmp ≡ false
leads-not_null null str h = cc h
leads-not_null freed str h = cc h
leads-not_null (node children is_leaf) str h = refl

-- The last branching below a child, seen from the node above it.
later_branch :
    (m : ℕ) (children : ℕ → Node) (is_leaf : Bool) (c : ℕ) (str : List ℕ)
    → IsLast (suc m) (children (letter c)) str
    → IsLast (suc (suc m)) (node children is_leaf) (c ∷ str)
later_branch m children is_leaf c str v = record {
  inside = omega (arith, v.inside);
  there = at;
  none_after = after;
}
  where
    at : (k : ℕ) → suc (suc m) ≡ suc k → BranchesAt k (node children is_leaf) (c ∷ str)
    at zero e = absurd (omega arith)
    at (suc k) e = v.there k (omega arith)

    after : (k : ℕ) → suc (suc m) ≤ k → ¬ BranchesAt k (node children is_leaf) (c ∷ str)
    after zero q = absurd (omega arith)
    after (suc k) q = v.none_after k (omega arith)

first_branch :
    (children : ℕ → Node) (is_leaf : Bool) (c : ℕ) (str : List ℕ)
    → branches children_no children (letter c) ≡ true
    → IsLast 0 (children (letter c)) str
    → IsLast 1 (node children is_leaf) (c ∷ str)
first_branch children is_leaf c str h v = record {
  inside = omega arith;
  there = at;
  none_after = after;
}
  where
    at : (k : ℕ) → 1 ≡ suc k → BranchesAt k (node children is_leaf) (c ∷ str)
    at zero e = branches-OtherChild children_no children (letter c) h
    at (suc k) e = absurd (omega arith)

    after : (k : ℕ) → 1 ≤ k → ¬ BranchesAt k (node children is_leaf) (c ∷ str)
    after zero q = absurd (omega arith)
    after (suc k) q = v.none_after k (omega arith)

no_branch :
    (children : ℕ → Node) (is_leaf : Bool) (c : ℕ) (str : List ℕ)
    → branches children_no children (letter c) ≡ false
    → IsLast 0 (children (letter c)) str
    → IsLast 0 (node children is_leaf) (c ∷ str)
no_branch children is_leaf c str h v = record {
  inside = omega arith;
  there = λ k e. absurd (omega arith);
  none_after = after;
}
  where
    after : (k : ℕ) → 0 ≤ k → ¬ BranchesAt k (node children is_leaf) (c ∷ str)
    after zero q = only-OtherChild children_no children (letter c) h
    after (suc k) q = v.none_after k (omega arith)

-- What the loop answers, from index `i` with `prefix` so far.
abbrev answer : ℕ → ℕ → ℕ → Option ℤ
answer i prefix zero = some (pos prefix)
answer i prefix (suc m) = some (pos (i + suc m))

from_child :
    (i prefix : ℕ) (children : ℕ → Node) (is_leaf : Bool) (c : ℕ) (str : List ℕ) (m : ℕ)
    → suc i < 256
    → IsLast m (children (letter c)) str
    → (m' : ℕ) × IsLast m' (node children is_leaf) (c ∷ str)
      × (answer
            (i + 1)
            (if branches children_no children (letter c) then (i + 1) % 256 else prefix)
            m
          ≡ answer i prefix m')
from_child i prefix children is_leaf c str (suc m) b v =
    let next : i + 1 + suc m ≡ i + suc (suc m) = omega arith in
    (suc (suc m), later_branch m children is_leaf c str v, rw next refl)
from_child i prefix children is_leaf c str zero b v =
    elim (Bool-cases (branches children_no children (letter c))) [
      | inl more ↦
          let small : (i + 1) % 256 ≡ i + 1 = omega arith in
          (1, first_branch children is_leaf c str more v, rw (more, small) refl)
      | inr only ↦ (0, no_branch children is_leaf c str only v, rw only refl)
    ]

pub prefix_loop-IsLast :
    (i prefix : ℕ) (tmp : Node) (str : List ℕ)
    → leads tmp str ≡ true
    → IsWord str
    → i + length str < 256
    → (m : ℕ) × IsLast m tmp str × (prefix_loop i prefix tmp str ≡ answer i prefix m)
unfolding prefix_loop
prefix_loop-IsLast i prefix null str h w b = cc h
prefix_loop-IsLast i prefix freed str h w b = cc h
prefix_loop-IsLast i prefix (node children is_leaf) [] h w b = (
  0,
  record { inside = omega arith; there = λ k e. absurd (omega arith); none_after = λ k q bad. bad },
  refl,
)
prefix_loop-IsLast i prefix (node children is_leaf) (c ∷ str) h (low, w) b =
    let prefix' = if branches children_no children (letter c) then (i + 1) % 256 else prefix in
    let (m, v, run) =
      prefix_loop-IsLast (i + 1) prefix' (children (letter c)) str h w (omega arith) in
    let (m', v', same) = from_child i prefix children is_leaf c str m (omega arith) v in
    (m', v', rw (letter-lt c low, leads-not_null (children (letter c)) str h) (run ∙ same))

-- a path that is not there
prefix_loop-missing :
    (i prefix : ℕ) (tmp : Node) (str : List ℕ)
    → is_null tmp ≡ false
    → is_whole tmp ≡ true
    → leads tmp str ≡ false
    → IsWord str
    → prefix_loop i prefix tmp str ≡ some (negsuc 0)
unfolding prefix_loop
prefix_loop-missing i prefix null str p q h w = cc p
prefix_loop-missing i prefix freed str p q h w = cc q
prefix_loop-missing i prefix (node children is_leaf) [] p q h w = cc h
prefix_loop-missing i prefix (node children is_leaf) (c ∷ str) p q h (low, w) =
    rw (letter-lt c low) (elim (Bool-cases (is_null (children (letter c)))) [
      | inl absent ↦ rw absent refl
      | inr there ↦ rw there (
          prefix_loop-missing (i + 1) _ (children (letter c)) str there
            (is_whole-child children is_leaf (letter c) q (letter-lt c low)) h w)
    ])

longest_prefix-loop :
    (root : Node) (str : List ℕ)
    → is_null root ≡ false
    → longest_prefix root (some str) ≡ prefix_loop 0 0 root str
unfolding longest_prefix
longest_prefix-loop null str p = cc p
longest_prefix-loop freed str p = refl
longest_prefix-loop (node children is_leaf) str p = refl

answer-from_start : (m : ℕ) → answer 0 0 m ≡ some (pos m)
answer-from_start zero = refl
answer-from_start (suc m) = let e : 0 + suc m ≡ suc m = omega arith in rw e refl

-- On a tree without freed nodes, for a string of less than 256 lower-case letters,
-- trie_longest_prefix returns -1 if the string leads to no node, and otherwise a number of
-- letters, at most those of the string: if it is m + 1, the node m steps along the path has a
-- child besides the next one on the path, and no later node has; if it is 0, no node of the path
-- has.
pub longest_prefix_correct :
    (root : Node) (str : List ℕ)
    → is_null root ≡ false
    → is_whole root ≡ true
    → IsWord str
    → length str < 256
    → ((leads root str ≡ false) × (longest_prefix root (some str) ≡ some (negsuc 0)))
      ⊎ ((leads root str ≡ true)
          × ((m : ℕ) × (longest_prefix root (some str) ≡ some (pos m)) × IsLast m root str))
longest_prefix_correct root str p q w b = elim (Bool-cases (leads root str)) [
  | inr missing ↦
      inl (missing, longest_prefix-loop root str p ∙ prefix_loop-missing 0 0 root str p q missing w)
  | inl there ↦
      let (m, v, run) = prefix_loop-IsLast 0 0 root str there w (omega arith) in
      inr (there, (m, longest_prefix-loop root str p ∙ run ∙ answer-from_start m, v))
]
