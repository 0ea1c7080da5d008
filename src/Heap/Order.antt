-- ===== src/Heap/Order.antt =====
-- The heap order over the test `above` of the sift loops, and what a sift leaves.
use mathlib.Core.List.{Perm}
use mathlib.Core.List.Perm
use data_structures.Prelude.{
  ℕ, zero, suc, ◌≤◌, ◌<◌, ◌≡◌, inl, inr, arith, Bool, true, false, List, length, get_or, take,
  Bool-cases,
}
use data_structures.Heap.{parent_idx}
use data_structures.Heap.Array.{exchange, length-exchange, take-exchange}

-- "not above" is a total preorder.
pub record IsTest {ℓ} {A : Type ℓ} (above : A → A → Bool) : Type ℓ where
  pub settle : (x y : A) → above x y ≡ true → above y x ≡ false
  pub chain : (x y z : A) → above x y ≡ false → above y z ≡ false → above x z ≡ false

module _ {ℓ} {A : Type ℓ} (above : A → A → Bool) (d : A) where
  -- The entry at index `i` may stand over the one at index `c`; `d` stands for a read out of range.
  abbrev pub Fits : List A → ℕ → ℕ → Type 0
  Fits a i c = above (get_or a i d) (get_or a c d) ≡ false

  -- Each of the first `n` entries fits under its parent.
  abbrev pub IsHeap : ℕ → List A → Type 0
  IsHeap n a = (c : ℕ) → 0 < c → c < n → Fits a (parent_idx c) c

  -- The entry above index `i` fits over the entries below it.
  abbrev pub IsBridged : ℕ → List A → ℕ → Type 0
  IsBridged n a i = (c : ℕ) → 0 < c → c < n → 0 < i → parent_idx c ≡ i → Fits a (parent_idx i) c

  -- What a sift makes of the array `a` with `n` entries in use.
  pub record Sifted (n : ℕ) (a b : List A) : Type ℓ where
    pub heap : IsHeap n b
    pub same : Perm (take n b) (take n a)
    pub size : length b ≡ length a

  pub Sifted-exchange :
      {n : ℕ} {a b : List A} (i j : ℕ)
      → n ≤ length a
      → i < n
      → j < n
      → Sifted n (exchange d a i j) b
      → Sifted n a b
  Sifted-exchange {n} {a} i j h hi hj s = record {
    heap = s.heap;
    same = Perm.trans s.same (take-exchange d n a i j h hi hj);
    size = omega (arith, s.size, length-exchange d a i j (omega arith) (omega arith));
  }

  module _ (t : IsTest above) where
    pub above_self : (x : A) → above x x ≡ false
    above_self x = elim (Bool-cases (above x x)) [ inl e ↦ t.settle x x e | inr e ↦ e ]

    root-Fits_below : (k n : ℕ) (a : List A) (i : ℕ) → IsHeap n a → i < k → i < n → Fits a 0 i
    root-Fits_below zero n a i h f p = absurd (omega arith)
    root-Fits_below (suc k) n a zero h f p = above_self (get_or a 0 d)
    root-Fits_below (suc k) n a (suc i) h f p =
        t.chain _ (get_or a (parent_idx (suc i)) d) _
          (root-Fits_below k n a (parent_idx (suc i)) h (omega arith) (omega arith))
          (h (suc i) (omega arith) p)

    -- In a heap the root fits over every entry.
    pub root-Fits : (n : ℕ) (a : List A) (i : ℕ) → IsHeap n a → i < n → Fits a 0 i
    root-Fits n a i h p = root-Fits_below (suc i) n a i h (omega arith) p
