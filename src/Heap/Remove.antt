-- ===== src/Heap/Remove.antt =====
-- `peek` and `delete`: the root stands over every entry, and is what goes.
use mathlib.Core.List.{Perm, perm_middle}
use mathlib.Core.List.Perm
use mathlib.Core.Option.{some-injective}
use data_structures.Prelude.{
  ℕ, suc, ◌-◌, ◌^◌, ◌≤◌, ◌<◌, ◌≡◌, ◌∙◌, refl, sym, arith, Bool, true, false, some, List, [], ◌∷◌,
  append-nil, length, get_or, take, All, inl, inr, Bool-cases, ◌==◌, get_elem?-eq-get_or, pos,
}
use data_structures.Heap.{parent_idx}
use data_structures.Heap.Array.{
  All-take, take-suc, exchange, swap-exchange, get_or-exchange, length-exchange, take-exchange,
}
use data_structures.Heap.Order.{IsTest, IsHeap, root-Fits}
use data_structures.Heap.Down.{DownInv, heapify_down_sifts}
use data_structures.Heap.Operations.{Heap, entries, delete, peek}
use data_structures.Heap.Correct.{IsValid, Deleted}

module _ {ℓ} {A : Type ℓ} (above : A → A → Bool) (d : A) (t : IsTest above) where
  -- On a valid heap, the test puts what the peek shows over every entry.
  pub peek_over :
      (h : Heap A) (x : A)
      → IsValid above d h
      → peek (some h) ≡ some x
      → All (λ y. above x y ≡ false) (entries h)
  unfolding peek
  peek_over h x v e = elim (Bool-cases (h.size == 0)) [
    | inl empty ↦ cc (rw empty at e)
    | inr more ↦
        let p : 0 < h.size = ground arith in
        let size : h.size ≤ length h.cells = omega (arith, v.storage, v.bounded) in
        let root : get_or h.cells 0 d ≡ x =
          some-injective _ _
            (sym (get_elem?-eq-get_or h.cells 0 d (omega arith)) ∙ (rw more at e)) in
        All-take (λ y. above x y ≡ false) d h.size h.cells size
          (λ i q. rw (← root) (root-Fits above d t h.size h.cells i v.ordered q))
  ]

  shrunk-DownInv :
      (a : List A) (n : ℕ)
      → suc n ≤ length a
      → IsHeap above d (suc n) a
      → DownInv above d t n (exchange d a 0 n) 0
  shrunk-DownInv a n h o =
      let at = get_or-exchange d a 0 n (omega arith) h in
      record {
        fits = omega (arith, length-exchange d a 0 n (omega arith) h);
        edges = λ c p q r. ground (arith, at c, at (parent_idx c), o c);
        bridged = λ c p q r. absurd (omega arith);
      }

  -- the root and what is left of the exchanged array are the old entries
  shrunk-perm :
      (a : List A) (n : ℕ)
      → suc n ≤ length a
      → Perm (get_or a 0 d ∷ take n (exchange d a 0 n)) (take (suc n) a)
  shrunk-perm a n h =
      let b = exchange d a 0 n in
      let kept = length-exchange d a 0 n (omega arith) h in
      let last = get_or-exchange d a 0 n (omega arith) h n in
      let self : (n == n) ≡ true = ground arith in
      let whole =
        rw (take-suc n b d (omega (arith, kept)), last, self) at
          (take-exchange d (suc n) a 0 n h (omega arith) (omega arith)) in
      Perm.trans (Perm.symm (rw append-nil at (perm_middle {a = get_or a 0 d} (take n b) []))) whole

  -- On a valid heap that is not empty and has at most 2 ^ 30 entries: `delete` returns 0 after freeing exactly one entry, the one
  -- that `peek` shows, and leaves a valid heap of the others.
  pub delete_correct :
      (h : Heap A)
      → IsValid above d h
      → 0 < h.size
      → h.size ≤ 2 ^ 30
      → (h' : Heap A) × (x : A) × (delete above (some h) ≡ some (some h', pos 0, some x))
        × (peek (some h) ≡ some x)
        × Deleted above d h x h'
  unfolding delete peek
  delete_correct h v p small =
      let n = h.size - 1 in
      let count : h.size ≡ suc n = omega arith in
      let size : suc n ≤ length h.cells = omega (arith, v.storage, v.bounded) in
      let more : (h.size == 0) ≡ false = ground arith in
      let b = exchange d h.cells 0 n in
      let kept = length-exchange d h.cells 0 n (omega arith) size in
      let self : (n == n) ≡ true = ground arith in
      let root : get_or b n d ≡ get_or h.cells 0 d =
        get_or-exchange d h.cells 0 n (omega arith) size n ∙ rw self in
      let (c, run, s) =
        heapify_down_sifts above d t n b 0 (omega arith) (omega arith)
          (shrunk-DownInv h.cells n size (rw count at v.ordered)) in
      rw
        (
          more,
          swap-exchange d h.cells 0 n (omega arith) size,
          get_elem?-eq-get_or b n d (omega (arith, kept)),
          run,
          root,
          get_elem?-eq-get_or h.cells 0 d (omega arith),
        )
        (
          record h { cells = c; size = n },
          get_or h.cells 0 d,
          refl,
          refl,
          record {
            valid = record {
              storage = omega (arith, s.size, kept, v.storage);
              bounded = omega (arith, v.bounded);
              ordered = s.heap;
            };
            same = Perm.trans (Perm.cons _ s.same) (rw (← count) at (shrunk-perm h.cells n size));
            capacity = refl;
          },
        )
