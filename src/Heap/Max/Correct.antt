-- ===== src/Heap/Max/Correct.antt =====
-- What the operations of src/heap/max_heap.c promise, for a comparison callback that orders.
use data_structures.Prelude.{
  ◌<◌, ◌≡◌, ◌≢◌, refl, arith, true, false, Option, none, some, ℤ, pos, negsuc, ◌==◌,
}
use data_structures.Compare.{IsOrder}
use data_structures.Heap.Order.{IsTest}
use data_structures.Heap.Operations.{Heap}
use data_structures.Heap.Correct.{IsValid, Inserted}
use data_structures.Heap.Insert
use data_structures.Heap.Remove
use data_structures.Heap.Max.{above, insert, delete}

module _ {ℓ} {A : Type ℓ} {cmp : A → A → ℤ} (o : IsOrder cmp) where
  pub above-IsTest : IsTest (above cmp)
  above-IsTest = record {
    settle = λ x y h. ground (arith, o.flip x y);
    chain = λ x y z h k. ground (arith, o.flip y x, o.flip z y, o.flip z x, o.chain z y x);
  }

  -- On a valid heap with room, if the copy of the value succeeds: `max_heap_insert` returns 0 and
  -- leaves a valid heap of the same capacity, of exactly the old entries and the copy.
  pub max_insert_correct :
      (d : A) (alloc : A → Option A) (h : Heap A) (value fresh : A)
      → IsValid (above cmp) d h
      → h.size < h.capacity
      → alloc value ≡ some fresh
      → (h' : Heap A) × (insert cmp alloc (some h) (some value) ≡ some (some h', pos 0))
        × Inserted (above cmp) d h fresh h'
  unfolding insert
  max_insert_correct d = Insert.insert_correct (above cmp) d above-IsTest

-- `max_heap_insert` and `max_heap_delete` refuse with -1 and leave the heap as it is: `insert` a NULL
-- value and any value for a full heap, `delete` an empty heap. A failed copy is refused with -2.
pub max_refuses {ℓ} :
    {A : Type ℓ} (cmp : A → A → ℤ) (alloc : A → Option A) (h : Heap A) (value : A)
    → (insert cmp alloc (some h) none ≡ some (some h, negsuc 0))
      × (h.size ≡ h.capacity → insert cmp alloc (some h) (some value) ≡ some (some h, negsuc 0))
      × (h.size ≢ h.capacity
          → alloc value ≡ none
          → insert cmp alloc (some h) (some value) ≡ some (some h, negsuc 1))
      × (h.size ≡ 0 → delete cmp (some h) ≡ some (some h, negsuc 0, none))
unfolding insert delete
max_refuses cmp alloc h value = (
  refl,
  λ e. let full : (h.size == h.capacity) ≡ true = ground arith in rw full,
  λ e f. let room : (h.size == h.capacity) ≡ false = ground arith in rw (room, f),
  λ e. let empty : (h.size == 0) ≡ true = ground arith in rw empty,
)
