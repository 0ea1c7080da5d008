-- ===== src/Heap/Max.antt =====
-- src/heap/max_heap.c: the operations with the test of its sift loops, `heap_cmp(p, c) < 0`.
-- `cmp`, `alloc` and the `malloc` results are parameters.
pub mod Correct
use data_structures.Prelude.{ℕ, Bool, Option, List, ℤ, is_neg}
use data_structures.Heap
use data_structures.Heap.Operations.{Heap}
use data_structures.Heap.Operations

module _ {ℓ} {A : Type ℓ} where
  unfoldable pub init : (callbacks handle : Bool) (storage : Option (List A)) → ℤ → Option (Heap A)
  unfolding Operations.init
  init = Operations.init

  unfoldable pub destroy : Option (Heap A) → List A
  unfolding Operations.destroy
  destroy = Operations.destroy

  unfoldable pub peek : Option (Heap A) → Option A
  unfolding Operations.peek
  peek = Operations.peek

  module _ (cmp : A → A → ℤ) where
    -- the parent `p` may not stand over the child `c`
    abbrev pub above : A → A → Bool
    above p c = is_neg (cmp p c)

    unfoldable pub heapify_up : List A → ℕ → Option (List A)
    unfolding Heap.heapify_up
    heapify_up = Heap.heapify_up above

    unfoldable pub heapify_down : List A → ℕ → ℕ → Option (List A)
    unfolding Heap.heapify_down
    heapify_down = Heap.heapify_down above

    unfoldable pub insert :
        (alloc : A → Option A) → Option (Heap A) → Option A → Option (Option (Heap A) × ℤ)
    unfolding Operations.insert
    insert = Operations.insert above

    unfoldable pub delete : Option (Heap A) → Option (Option (Heap A) × ℤ × Option A)
    unfolding Operations.delete
    delete = Operations.delete above
