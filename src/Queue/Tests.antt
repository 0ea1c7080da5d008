-- ===== src/Queue/Tests.antt =====
-- Runs of the queue, and the theorems at concrete queues.
use data_structures.Prelude.{ℕ, ◌≡◌, refl, arith, true, some, [], ◌∷◌, negsuc}
use data_structures.Queue.{Queue, create, enqueue, dequeue}
use data_structures.Queue.Lane
use data_structures.Queue.Invariant.{IsValid, IsValid?, create-IsValid}
use data_structures.Queue.Refines.{lane, lane?, enqueue_refines, dequeue_refines}

-- 8 and 9 wait, behind an element that has left; one place is unused
abbrev sample : Queue ℕ
sample = record { q = 7 ∷ 8 ∷ 9 ∷ 0 ∷ []; size = 4; first = 1; last = 3 }

-- every place is used up, and nothing waits
abbrev spent : Queue ℕ
spent = record { q = 7 ∷ 8 ∷ []; size = 2; first = 2; last = 2 }

sample-IsValid : IsValid sample
sample-IsValid = omega arith

-- An empty queue whose places are used up takes nothing any more.
enqueue-spent : enqueue (some spent) (some 1) ≡ (some spent, negsuc 1)
unfolding enqueue
enqueue-spent = refl

create-IsValid_example : IsValid? {A = ℕ} (create true (some (0 ∷ 0 ∷ [])) 2)
create-IsValid_example = create-IsValid (0 ∷ 0 ∷ []) 2 refl (omega arith)

enqueue_refines_example :
    let (queue, status) = enqueue (some sample) (some 5) in
    let (l, answer) = Lane.enter (lane sample) 5 in (lane? queue ≡ some l) × (status ≡ answer)
enqueue_refines_example = enqueue_refines sample 5 sample-IsValid

dequeue_refines_example :
    let (queue, out) = dequeue (some sample) in
    let (l, x) = Lane.leave (lane sample) in (lane? queue ≡ some l) × (out ≡ x)
dequeue_refines_example = dequeue_refines sample sample-IsValid
