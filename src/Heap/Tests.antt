-- ===== src/Heap/Tests.antt =====
-- Runs of both heaps on numbers, and the theorems at concrete heaps.
use data_structures.Prelude.{ℕ, ◌≡◌, refl, arith, false, some, [], ◌∷◌, ℤ, pos, sub_ℕ, is_pos, All}
use data_structures.Compare.{IsOrder}
use data_structures.Heap.{swap, heapify_up, heapify_down}
use data_structures.Heap.Operations.{Heap, entries}
use data_structures.Heap.Correct.{IsValid, Inserted, Deleted}
use data_structures.Heap.Min
use data_structures.Heap.Min.Correct.{min_insert_correct, min_delete_correct}
use data_structures.Heap.Max

-- the comparison of the repository's tests, `*(int *)a - *(int *)b`, at small numbers
abbrev cmp : ℕ → ℕ → ℤ
cmp = sub_ℕ

cmp-IsOrder : IsOrder cmp
cmp-IsOrder = record { flip = λ x y. ground arith; chain = λ x y z h k. ground arith }

abbrev low : Heap ℕ
low = record { cells = 1 ∷ 4 ∷ 7 ∷ 9 ∷ 0 ∷ []; size = 4; capacity = 5 }

abbrev high : Heap ℕ
high = record { cells = 9 ∷ 4 ∷ 7 ∷ 1 ∷ 0 ∷ []; size = 4; capacity = 5 }

insert-low :
    Min.insert cmp some (some low) (some 3)
    ≡ some (some (record { cells = 1 ∷ 3 ∷ 7 ∷ 9 ∷ 4 ∷ []; size = 5; capacity = 5 }), pos 0)
unfolding Min.insert heapify_up
insert-low = refl

delete-low :
    Min.delete cmp (some low)
    ≡ some (some (record { cells = 4 ∷ 9 ∷ 7 ∷ 1 ∷ 0 ∷ []; size = 3; capacity = 5 }), pos 0, some 1)
unfolding Min.delete swap heapify_down
delete-low = refl

delete-high :
    Max.delete cmp (some high)
    ≡ some (some (record { cells = 7 ∷ 4 ∷ 1 ∷ 9 ∷ 0 ∷ []; size = 3; capacity = 5 }), pos 0, some 9)
unfolding Max.delete swap heapify_down
delete-high = refl

low-IsValid : IsValid (Min.above cmp) 0 low
low-IsValid = record { storage = refl; bounded = omega arith; ordered = λ c p q. ground arith }

min_insert_example :
    (h : Heap ℕ) × (Min.insert cmp some (some low) (some 3) ≡ some (some h, pos 0))
    × Inserted (Min.above cmp) 0 low 3 h
min_insert_example = min_insert_correct cmp-IsOrder 0 some low 3 3 low-IsValid (omega arith) refl

min_delete_example :
    (h : Heap ℕ) × (x : ℕ) × (Min.delete cmp (some low) ≡ some (some h, pos 0, some x))
    × (Min.peek (some low) ≡ some x)
    × All (λ y. is_pos (cmp x y) ≡ false) (entries low)
    × Deleted (Min.above cmp) 0 low x h
min_delete_example = min_delete_correct cmp-IsOrder 0 low low-IsValid (omega arith) (omega arith)
