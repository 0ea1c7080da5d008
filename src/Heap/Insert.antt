-- ===== src/Heap/Insert.antt =====
-- `insert`: a valid heap with room takes exactly the copy of the value.
use native.Mathlib.Numerals.{add-one}
use mathlib.Core.List.{Perm, perm_middle}
use mathlib.Core.List.Perm
use data_structures.Prelude.{
  ℕ, ◌+◌, ◌<◌, ◌≡◌, refl, arith, Bool, true, false, Option, some, [], ◌∷◌, append-nil, set, take,
  length-set, ◌==◌, pos,
}
use data_structures.Heap.{parent_idx}
use data_structures.Heap.Array.{get_or-set, take-set_end, take-suc}
use data_structures.Heap.Order.{IsTest}
use data_structures.Heap.Up.{UpInv, heapify_up_sifts}
use data_structures.Heap.Operations.{Heap, entries, insert}
use data_structures.Heap.Correct.{IsValid, Inserted}

module _ {ℓ} {A : Type ℓ} (above : A → A → Bool) (d : A) (t : IsTest above) where
  grown-UpInv :
      (h : Heap A) (x : A)
      → IsValid above d h
      → h.size < h.capacity
      → UpInv above d t (h.size + 1) (set h.cells h.size x) h.size
  grown-UpInv h x v r =
      let at = λ (c : ℕ). get_or-set h.cells h.size c x d (omega (arith, v.storage)) in
      record {
        fits = omega (arith, length-set h.cells h.size x, v.storage);
        inside = omega arith;
        edges = λ c p q s. ground (arith, at c, at (parent_idx c), v.ordered c);
        bridged = λ c p q s u. absurd (omega arith);
      }

  entries-set :
      (h : Heap A) (x : A)
      → IsValid above d h
      → h.size < h.capacity
      → Perm (take (h.size + 1) (set h.cells h.size x)) (x ∷ entries h)
  entries-set h x v r =
      let last = get_or-set h.cells h.size h.size x d (omega (arith, v.storage)) in
      let more =
        take-suc h.size (set h.cells h.size x) d
          (omega (arith, length-set h.cells h.size x, v.storage)) in
      let self : (h.size == h.size) ≡ true = ground arith in
      rw (add-one, more, last, self, take-set_end)
        (rw append-nil at (perm_middle {a = x} (entries h) []))

  -- On a valid heap with room, if the copy succeeds.
  pub insert_correct :
      (alloc : A → Option A) (h : Heap A) (value fresh : A)
      → IsValid above d h
      → h.size < h.capacity
      → alloc value ≡ some fresh
      → (h' : Heap A) × (insert above alloc (some h) (some value) ≡ some (some h', pos 0))
        × Inserted above d h fresh h'
  unfolding insert
  insert_correct alloc h value fresh v r e =
      let full : (h.size == h.capacity) ≡ false = ground arith in
      let (b, run, s) =
        heapify_up_sifts above d t (h.size + 1) (set h.cells h.size fresh) h.size
          (grown-UpInv h fresh v r) in
      rw (full, e, run)
        (
          record h { cells = b; size = h.size + 1 },
          refl,
          record {
            valid = record {
              storage = omega (arith, s.size, length-set h.cells h.size fresh, v.storage);
              bounded = omega arith;
              ordered = s.heap;
            };
            same = Perm.trans s.same (entries-set h fresh v r);
            capacity = refl;
          },
        )
