-- ===== src/BinaryTree/Perfect.antt =====
-- `binary_tree_is_perfect` and the number of nodes that a perfect tree has.
use data_structures.Prelude.{
  ℕ, zero, suc, ◌+◌, ◌^◌, ◌≤◌, ◌<◌, ◌≡◌, refl, arith, Bool, true, false, Option, some, [], ◌==◌,
  ==_iff, ◌↔◌, if◌then◌else◌, ◌>>=◌,
}
use data_structures.Queue.Interface.{Calls, IsQueue}
use data_structures.BinaryTree.{Tree, leaf, node, size, depth_recursive, larger}
use data_structures.BinaryTree.Queued.{perfect_below, is_perfect}
use data_structures.BinaryTree.Depth.{depth_iterative_correct}

double : (d : ℕ) → 2 ^ suc d ≡ 2 ^ d + 2 ^ d
double d = omega arith

one_at_zero : (d : ℕ) → (2 ^ d ≡ 1) ↔ (d ≡ 0)
one_at_zero zero = (λ e. refl, λ e. refl)
one_at_zero (suc d) = (λ e. absurd (omega arith), λ e. absurd (omega arith))

-- A node with one child leaves room on the last level.
one_child :
    (d n m : ℕ) → n + 1 ≤ 2 ^ d → 1 ≤ n → m ≡ n + 2 → (◌≡◌ {A = Bool} false true) ↔ (m ≡ 2 ^ suc d)
one_child d n m h more e = let pow = double d in (λ f. cc f, λ f. absurd (omega arith))

at_bottom : (d depth crt : ℕ) → depth ≡ crt + d → ((depth == crt) ≡ true) ↔ (2 ≡ 2 ^ suc d)
at_bottom d depth crt e =
    let pow = double d in
    (
      λ h.
          let same = (==_iff depth crt).0 h in
          let one = (one_at_zero d).1 (omega arith) in omega arith,
      λ h. (==_iff depth crt).1 (let none_left = (one_at_zero d).0 (omega arith) in omega arith),
    )

module _ {ℓ} {A : Type ℓ} where
  size-pow : (d : ℕ) (t : Tree A) → depth_recursive t ≤ d → size t + 1 ≤ 2 ^ d
  size-pow zero leaf h = omega arith
  size-pow (suc d) leaf h = omega (arith, double d, size-pow d leaf (omega arith))
  size-pow zero (node l x r) h = absurd (omega arith)
  size-pow (suc d) (node l x r) h =
      omega (arith, double d, size-pow d l (ground arith), size-pow d r (ground arith))

  -- the answer `b` tells whether the tree has all nodes that fit in `d` levels
  abbrev Tells : Option Bool → ℕ → Tree A → Type 0
  Tells o d t = (b : Bool) × (o ≡ some b) × ((b ≡ true) ↔ (size t + 1 ≡ 2 ^ d))

  both :
      (o o' : Option Bool) (d : ℕ) (l : Tree A) (x : A) (r : Tree A)
      → depth_recursive l ≤ d
      → depth_recursive r ≤ d
      → Tells o d l
      → Tells o' d r
      → Tells (o >>= λ ok. if ok then o' else some false) (suc d) (node l x r)
  both o o' d l x r deep deep' (true, e, f) (b', e', f') =
      let few = size-pow d l deep in
      let few' = size-pow d r deep' in
      let whole = f.0 refl in
      let pow = double d in
      rw e (b', e', (λ h. let right = f'.0 h in omega arith, λ h. f'.1 (omega arith)))
  both o o' d l x r deep deep' (false, e, f) (b', e', f') =
      let few = size-pow d l deep in
      let few' = size-pow d r deep' in
      let pow = double d in rw e (false, refl, (λ h. cc h, λ h. cc (f.1 (omega arith))))

  perfect_below-Tells :
      (d : ℕ) (l : Tree A) (x : A) (r : Tree A) (depth crt : ℕ)
      → depth_recursive (node l x r) ≤ suc d
      → depth ≡ crt + d
      → Tells (perfect_below (node l x r) depth crt) (suc d) (node l x r)
  unfolding perfect_below
  perfect_below-Tells d leaf x leaf depth crt deep e = (depth == crt, refl, at_bottom d depth crt e)
  perfect_below-Tells d leaf x (node l' y r') depth crt deep e = (
    false,
    refl,
    one_child d (size l' + size r' + 1) _ (size-pow d (node l' y r') (ground arith)) (omega arith)
        (omega arith),
  )
  perfect_below-Tells d (node l' y r') x leaf depth crt deep e = (
    false,
    refl,
    one_child d (size l' + size r' + 1) _ (size-pow d (node l' y r') (ground arith)) (omega arith)
        (omega arith),
  )
  perfect_below-Tells zero (node l y r) x (node l' y' r') depth crt deep e = absurd (ground arith)
  perfect_below-Tells (suc d) (node l y r) x (node l' y' r') depth crt deep e =
      both _ _ (suc d) (node l y r) x (node l' y' r') (ground arith) (ground arith)
        (perfect_below-Tells d l y r depth (crt + 1) (ground arith) (omega arith))
        (perfect_below-Tells d l' y' r' depth (crt + 1) (ground arith) (omega arith))

  -- With a queue that is empty and has room for all nodes, and with more fuel than the tree is
  -- deep, binary_tree_is_perfect on a tree that is not empty tells whether it has 2 ^ h - 1
  -- nodes, where h is its depth; it never follows a NULL pointer.
  pub is_perfect_correct :
      {Q : Type ℓ} (calls : Calls (Tree A) Q) (law : IsQueue calls) (n : ℕ) (l : Tree A) (x : A)
      (r : Tree A) (queue : Q)
      → law.Good queue
      → (law.lane queue).waiting ≡ []
      → size (node l x r) ≤ (law.lane queue).room
      → depth_recursive (node l x r) < n
      → (b : Bool) × (is_perfect calls n (some queue) (node l x r) ≡ some b)
        × ((b ≡ true) ↔ (size (node l x r) + 1 ≡ 2 ^ depth_recursive (node l x r)))
  unfolding is_perfect
  is_perfect_correct calls law n l x r queue g e room f =
      let d = larger (depth_recursive l) (depth_recursive r) in
      let deep : d + 1 ≡ suc d = omega arith in
      rw (depth_iterative_correct calls law n (node l x r) queue g e room f, deep)
        (perfect_below-Tells d l x r (suc d) 1 (omega arith) (omega arith))
