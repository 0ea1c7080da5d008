-- ===== src/Heap/Up.antt =====
-- `__heapify_up` restores the heap order when one entry may stand too low.
use mathlib.Core.List.Perm
use data_structures.Prelude.{
  ℕ, zero, suc, ◌+◌, ◌≤◌, ◌<◌, ◌≡◌, ◌≢◌, refl, inl, inr, arith, Bool, true, List, some, length,
  get_or, Bool-cases, ltb, get_elem?-eq-get_or,
}
use data_structures.Heap.{parent_idx, up_loop, heapify_up}
use data_structures.Heap.Array.{exchange, swap-exchange, get_or-exchange, length-exchange}
use data_structures.Heap.Order.{IsTest, Fits, IsBridged, Sifted, Sifted-exchange}

module _ {ℓ} {A : Type ℓ} (above : A → A → Bool) (d : A) (t : IsTest above) where
  -- Only the edge above `i` may be out of order.
  pub record UpInv (n : ℕ) (a : List A) (i : ℕ) : Type 0 where
    pub fits : n ≤ length a
    pub inside : i < n
    pub edges : (c : ℕ) → 0 < c → c < n → c ≢ i → Fits above d a (parent_idx c) c
    pub bridged : IsBridged above d n a i

  exchange-UpInv :
      (n : ℕ) (a : List A) (i : ℕ)
      → UpInv n a i
      → 0 < i
      → above (get_or a (parent_idx i) d) (get_or a i d) ≡ true
      → UpInv n (exchange d a (parent_idx i) i) (parent_idx i)
  exchange-UpInv n a i v p e =
      let j = parent_idx i in
      let at =
        get_or-exchange d a j i (omega (arith, v.fits, v.inside))
          (omega (arith, v.fits, v.inside)) in
      let kept =
        length-exchange d a j i (omega (arith, v.fits, v.inside))
          (omega (arith, v.fits, v.inside)) in
      let x = get_or a i d in
      let y = get_or a j d in
      let under = t.settle y x e in
      record {
        fits = omega (arith, kept, v.fits);
        inside = omega (arith, v.inside);
        edges = λ c q r s. ground (
          arith,
          at c,
          at (parent_idx c),
          v.edges c,
          v.bridged c,
          under,
          t.chain x y (get_or a c d),
        );
        bridged = λ c q r s u. ground (
          arith,
          at c,
          at (parent_idx j),
          v.edges c,
          v.edges j,
          v.inside,
          t.chain (get_or a (parent_idx j) d) y (get_or a c d),
        );
      }

  up_loop_sifts :
      (k n : ℕ) (a : List A) (i : ℕ)
      → i < k
      → UpInv n a i
      → (b : List A) × (up_loop above k a i ≡ some b) × Sifted above d n a b
  unfolding up_loop
  up_loop_sifts zero n a i f v = absurd (omega arith)
  up_loop_sifts (suc k) n a i f v = elim (Bool-cases (ltb 0 i)) [
    | inl below ↦
        let j = parent_idx i in
        let hi : i < length a = omega (arith, v.fits, v.inside) in
        let hj : j < length a = omega (arith, v.fits, v.inside) in
        rw (below, get_elem?-eq-get_or a j d hj, get_elem?-eq-get_or a i d hi)
          (elim (Bool-cases (above (get_or a j d) (get_or a i d))) [
            | inl rise ↦
                let (b, run, s) =
                  up_loop_sifts k n (exchange d a j i) j (ground arith)
                    (exchange-UpInv n a i v (ground arith) rise) in
                rw (rise, swap-exchange d a j i hj hi)
                  (b, run, Sifted-exchange above d j i v.fits (omega (arith, v.inside)) v.inside s)
            | inr rest ↦ rw rest (
              a,
              refl,
              record { heap = λ c q r. ground (arith, v.edges c); same = Perm.refl _; size = refl },
            )
          ])
    | inr root ↦ rw root (
      a,
      refl,
      record { heap = λ c q r. v.edges c q r (ground arith); same = Perm.refl _; size = refl },
    )
  ]

  -- `__heapify_up` returns, and turns an array with one entry too low into a heap of the same
  -- entries.
  pub heapify_up_sifts :
      (n : ℕ) (a : List A) (i : ℕ)
      → UpInv n a i
      → (b : List A) × (heapify_up above a i ≡ some b) × Sifted above d n a b
  unfolding heapify_up
  heapify_up_sifts n a i v = up_loop_sifts (i + 1) n a i (omega arith) v
