-- ===== src/Heap/Correct.antt =====
-- What it means for a heap to be valid, and what `insert` and `delete` leave.
use mathlib.Core.List.{Perm}
use data_structures.Prelude.{◌≤◌, ◌≡◌, Bool, ◌∷◌, length}
use data_structures.Heap.Order.{IsHeap}
use data_structures.Heap.Operations.{Heap, entries}

module _ {ℓ} {A : Type ℓ} (above : A → A → Bool) (d : A) where
  -- The array has the capacity, the entries in use are in heap order.
  pub record IsValid (h : Heap A) : Type 0 where
    pub storage : length h.cells ≡ h.capacity
    pub bounded : h.size ≤ h.capacity
    pub ordered : IsHeap above d h.size h.cells

  -- What `insert` leaves: a valid heap of the old entries and the new one.
  pub record Inserted (h : Heap A) (x : A) (h' : Heap A) : Type ℓ where
    pub valid : IsValid h'
    pub same : Perm (entries h') (x ∷ entries h)
    pub capacity : h'.capacity ≡ h.capacity

  -- What `delete` leaves: a valid heap of the entries without `x`.
  pub record Deleted (h : Heap A) (x : A) (h' : Heap A) : Type ℓ where
    pub valid : IsValid h'
    pub same : Perm (x ∷ entries h') (entries h)
    pub capacity : h'.capacity ≡ h.capacity
