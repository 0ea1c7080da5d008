-- ===== src/Heap/Min/Correct.antt =====
-- What the operations of src/heap/min_heap.c promise, for a comparison callback that orders.
use data_structures.Prelude.{
  ◌^◌, ◌≤◌, ◌<◌, ◌≡◌, ◌≢◌, refl, arith, true, false, Option, none, some, ℤ, pos, negsuc, is_pos,
  All, ◌==◌,
}
use data_structures.Compare.{IsOrder}
use data_structures.Heap.Order.{IsTest}
use data_structures.Heap.Operations.{Heap, entries}
use data_structures.Heap.Correct.{IsValid, Inserted, Deleted}
use data_structures.Heap.Insert
use data_structures.Heap.Remove
use data_structures.Heap.Min.{above, insert, delete, peek}

module _ {ℓ} {A : Type ℓ} {cmp : A → A → ℤ} (o : IsOrder cmp) where
  pub above-IsTest : IsTest (above cmp)
  above-IsTest = record {
    settle = λ x y h. ground (arith, o.flip y x);
    chain = λ x y z h k. o.chain x y z h k;
  }

  -- On a valid min heap with room, with a comparison that orders, if the copy of the value
  -- succeeds: min_heap_insert returns 0 and leaves a valid heap of the same capacity, of
  -- exactly the old entries and the copy.
  pub min_insert_correct :
      (d : A) (alloc : A → Option A) (h : Heap A) (value fresh : A)
      → IsValid (above cmp) d h
      → h.size < h.capacity
      → alloc value ≡ some fresh
      → (h' : Heap A) × (insert cmp alloc (some h) (some value) ≡ some (some h', pos 0))
        × Inserted (above cmp) d h fresh h'
  unfolding insert
  min_insert_correct d = Insert.insert_correct (above cmp) d above-IsTest

  -- On a valid min heap of 1 to 2 ^ 30 entries, with a comparison that orders, min_heap_delete
  -- returns 0 after freeing one entry, the one that min_heap_peek shows, which is not greater
  -- than any entry, and leaves a valid heap of the same capacity, of exactly the other entries.
  pub min_delete_correct :
      (d : A) (h : Heap A)
      → IsValid (above cmp) d h
      → 0 < h.size
      → h.size ≤ 2 ^ 30
      → (h' : Heap A) × (x : A) × (delete cmp (some h) ≡ some (some h', pos 0, some x))
        × (peek (some h) ≡ some x)
        × All (λ y. is_pos (cmp x y) ≡ false) (entries h)
        × Deleted (above cmp) d h x h'
  unfolding delete peek
  min_delete_correct d h v p small =
      let (h', x, run, seen, left) = Remove.delete_correct (above cmp) d above-IsTest h v p small in
      (h', x, run, seen, Remove.peek_over (above cmp) d above-IsTest h x v seen, left)

-- `min_heap_insert` and `min_heap_delete` refuse with -1 and leave the heap as it is: `insert` a NULL
-- value and any value for a full heap, `delete` an empty heap. A failed copy is refused with -2.
pub min_refuses {ℓ} :
    {A : Type ℓ} (cmp : A → A → ℤ) (alloc : A → Option A) (h : Heap A) (value : A)
    → (insert cmp alloc (some h) none ≡ some (some h, negsuc 0))
      × (h.size ≡ h.capacity → insert cmp alloc (some h) (some value) ≡ some (some h, negsuc 0))
      × (h.size ≢ h.capacity
          → alloc value ≡ none
          → insert cmp alloc (some h) (some value) ≡ some (some h, negsuc 1))
      × (h.size ≡ 0 → delete cmp (some h) ≡ some (some h, negsuc 0, none))
unfolding insert delete
min_refuses cmp alloc h value = (
  refl,
  λ e. let full : (h.size == h.capacity) ≡ true = ground arith in rw full,
  λ e f. let room : (h.size == h.capacity) ≡ false = ground arith in rw (room, f),
  λ e. let empty : (h.size == 0) ≡ true = ground arith in rw empty,
)
