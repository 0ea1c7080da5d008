-- ===== src/Heap/Operations.antt =====
-- `min_heap_t` / `max_heap_t` and the operations on it. A heap or an element that is NULL is
-- `none`; an operation that updates `*h` returns the new heap. The outer `Option` of `insert` and
-- `delete` is `none` for an access out of range in the sift loops.
use data_structures.Prelude.{
  ℕ, ◌+◌, ◌-◌, Bool, Option, none, some, List, [], ◌==◌, if◌then◌else◌, get_elem?, set, take, ◌>>=◌,
  ℤ, pos, negsuc,
}
use data_structures.Heap.{swap, heapify_up, heapify_down}

-- `cells` is the array that `data` points to, the entries beyond `size` included.
pub record Heap {ℓ} (A : Type ℓ) : Type ℓ where
  pub cells : List A
  pub size : ℕ
  pub capacity : ℕ

module _ {ℓ} {A : Type ℓ} where
  pub is_full : Heap A → Bool
  is_full h = h.size == h.capacity

  pub is_empty : Heap A → Bool
  is_empty h = h.size == 0

  -- `callbacks` says whether all four function pointers are given, `handle` whether the first
  -- `malloc` succeeds, and `storage` is the array that the second one gives.
  unfoldable pub init : (callbacks handle : Bool) (storage : Option (List A)) → ℤ → Option (Heap A)
  init callbacks handle storage (negsuc n) = none
  init callbacks handle storage (pos capacity) =
      if callbacks
      then (if handle
          then (storage >>= λ cells. some (record { cells = cells; size = 0; capacity = capacity }))
          else none)
      else none

  -- the entries in use, in the order of the array
  abbrev pub entries : Heap A → List A
  entries h = take h.size h.cells

  -- What `_free` is called on before the heap itself is freed.
  unfoldable pub destroy : Option (Heap A) → List A
  destroy none = []
  destroy (some h) = entries h

  module _ (above : A → A → Bool) where
    -- `alloc` is the callback that copies the data, with `none` for NULL. The result is 0, -1 for a
    -- NULL argument or a full heap, -2 for a failed copy.
    unfoldable pub insert :
        (alloc : A → Option A) → Option (Heap A) → Option A → Option (Option (Heap A) × ℤ)
    unfolding is_full
    insert alloc none value = some (none, negsuc 0)
    insert alloc (some h) none = some (some h, negsuc 0)
    insert alloc (some h) (some value) =
        let grow : A → Option (Option (Heap A) × ℤ) = λ fresh.
          let idx = h.size in
          heapify_up above (set h.cells idx fresh) idx >>= λ cells.
          some (some (record h { cells = cells; size = h.size + 1 }), pos 0) in
        if is_full h
        then some (some h, negsuc 0)
        else elim (alloc value) [ none ↦ some (some h, negsuc 1) | some fresh ↦ grow fresh ]

    -- The third part is what `_free` is called on. The result is 0, or -1 for a NULL or empty heap.
    unfoldable pub delete : Option (Heap A) → Option (Option (Heap A) × ℤ × Option A)
    unfolding is_empty
    delete none = some (none, negsuc 0, none)
    delete (some h) =
        let size = h.size - 1 in
        let shrink : Option (Option (Heap A) × ℤ × Option A) = swap h.cells 0 size >>= λ swapped.
        get_elem? swapped size >>= λ last. heapify_down above swapped 0 size >>= λ cells.
        some (some (record h { cells = cells; size = size }), pos 0, some last) in
        if is_empty h then some (some h, negsuc 0, none) else shrink

  -- `none` is NULL; a read out of range has no value either, and the invariant rules it out.
  unfoldable pub peek : Option (Heap A) → Option A
  unfolding is_empty
  peek none = none
  peek (some h) = if is_empty h then none else get_elem? h.cells 0
