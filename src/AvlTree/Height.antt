-- ===== src/AvlTree/Height.antt =====
-- The height of a balanced tree is logarithmic in the number of its elements.
use Prim.Native.Nat.{max}
use Prim.Native.Nat.add
use data_structures.Prelude.{
  ℕ, zero, suc, ◌+◌, ◌-◌, ◌*◌, ◌≤◌, ◌≡◌, arith, length, length-append, ◌∷◌,
}
use data_structures.AvlTree.Nodes.{Tree, leaf, node, height}
use data_structures.AvlTree.Spec.{in_order}
use data_structures.AvlTree.Balanced.{IsBalanced}

-- 2 to the power of the half of `h`, rounded down
unfoldable pub half_power : ℕ → ℕ
half_power zero = 1
half_power (suc zero) = 1
half_power (suc (suc h)) = 2 * half_power h

half_power-suc : (h : ℕ) → half_power h ≤ half_power (suc h)
unfolding half_power
half_power-suc zero = omega arith
half_power-suc (suc zero) = omega arith
half_power-suc (suc (suc h)) = omega (arith, half_power-suc h)

half_power-add : (n h : ℕ) → half_power h ≤ half_power (n + h)
half_power-add zero h = rw add.zero (omega arith)
half_power-add (suc n) h = rw add.suc (omega (arith, half_power-add n h, half_power-suc (n + h)))

half_power_mono : (k h : ℕ) → k ≤ h → half_power k ≤ half_power h
half_power_mono k h le = let e : h - k + k ≡ h = omega arith in rw e at (half_power-add (h - k) k)

-- a level over two subtrees that are `k` levels high at least
half_power-level :
    (k a b : ℕ) → k ≤ a + 1 → k ≤ b + 1 → half_power (suc k) ≤ half_power a + half_power b
unfolding half_power
half_power-level zero a b p q = omega (arith, half_power_mono 0 a (omega arith))
half_power-level (suc k) a b p q =
    omega (arith, half_power_mono k a (omega arith), half_power_mono k b (omega arith))

-- A balanced tree of height `h` has at least 2 ^ (h / 2) - 1 elements.
pub half_power-le-length {ℓ} :
    {A : Type ℓ} (t : Tree A) → IsBalanced t → half_power (height t) ≤ length (in_order t) + 1
unfolding half_power
half_power-le-length leaf b = omega arith
half_power-le-length (node l x r h) (bl, br, e, p, q) =
    let top : h ≡ suc (max (height l) (height r)) = omega arith in
    let level =
      half_power-level (max (height l) (height r)) (height l) (height r) (omega arith)
        (omega arith) in
    rw top (
      omega (
        arith,
        level,
        half_power-le-length l bl,
        half_power-le-length r br,
        length-append (in_order l) (x ∷ in_order r),
      ))
