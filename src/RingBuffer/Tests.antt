-- ===== src/RingBuffer/Tests.antt =====
-- Runs of the ring on concrete values, and the theorems at concrete rings.
use data_structures.Prelude.{ℕ, ◌≡◌, refl, arith, List, [], ◌∷◌, true, false, none, some}
use data_structures.RingBuffer.{Ring, capacity, init, push, pop, print}
use data_structures.RingBuffer.Fifo
use data_structures.RingBuffer.Fifo.{Call, put, get, accepted, delivered}
use data_structures.RingBuffer.Invariant.{IsValid, init-IsValid}
use data_structures.RingBuffer.Refines.{run, run_refines}

-- 8, 9 and 5, round the end of the storage
abbrev wrapped : Ring ℕ
wrapped = record { entries = 9 ∷ 5 ∷ 7 ∷ 8 ∷ []; head = 3; tail = 2; size = 3 }

abbrev script : List (Call ℕ)
script = put 1 ∷ put 2 ∷ get ∷ get ∷ get ∷ get ∷ get ∷ []

wrapped-IsValid : IsValid wrapped
wrapped-IsValid = omega arith

run-wrapped :
    run wrapped script
    ≡ accepted true
      ∷ accepted false
      ∷ delivered (some 8) true
      ∷ delivered (some 9) true
      ∷ delivered (some 5) true
      ∷ delivered (some 1) true
      ∷ delivered none false
      ∷ []
unfolding run push pop
run-wrapped = refl

print-wrapped : print wrapped ≡ some ((3, 8) ∷ (0, 9) ∷ (1, 5) ∷ [])
unfolding print
print-wrapped = refl

init-IsValid_example : IsValid {A = ℕ} (init 0)
init-IsValid_example = init-IsValid 0

run_refines_example : run wrapped script ≡ Fifo.run capacity (8 ∷ 9 ∷ 5 ∷ []) script
run_refines_example = run_refines 0 script wrapped-IsValid
