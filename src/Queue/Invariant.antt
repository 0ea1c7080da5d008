-- ===== src/Queue/Invariant.antt =====
-- The representation invariant of `queue_t`.
use data_structures.Prelude.{
  ℕ, ◌^◌, ◌≤◌, ◌<◌, ◌≡◌, arith, true, Option, none, some, List, inl, inr, Bool-cases, ◌==◌, leb,
  length, length-set,
}
use data_structures.Queue.{Queue, create, enqueue, dequeue}

pub record IsValid {ℓ} {A : Type ℓ} (queue : Queue A) : Type 0 where
  pub storage : length queue.q ≡ queue.size
  pub ordered : queue.first ≤ queue.last
  pub inside : queue.last ≤ queue.size
  pub small : queue.size < 2 ^ 32

-- the queue that a pointer leads to, if any, is valid
abbrev pub IsValid? {ℓ} : {A : Type ℓ} → Option (Queue A) → Type 0
IsValid? none = Unit
IsValid? (some queue) = IsValid queue

module _ {ℓ} {A : Type ℓ} where
  -- `queue_create` yields a valid queue, if its array has the length that was asked for, which is
  -- an `unsigned int`.
  pub create-IsValid :
      (storage : List A) (n : ℕ)
      → length storage ≡ n
      → n < 2 ^ 32
      → IsValid? (create true (some storage) n)
  unfolding create
  create-IsValid storage n h k = omega arith

  -- `queue_enqueue` keeps the invariant on every branch.
  pub enqueue-IsValid :
      (queue : Option (Queue A)) (elem : Option A)
      → IsValid? queue
      → IsValid? (enqueue queue elem).0
  unfolding enqueue
  enqueue-IsValid none elem v = tt
  enqueue-IsValid (some queue) none v = v
  enqueue-IsValid (some queue) (some x) v = elim (Bool-cases (leb queue.size queue.last)) [
    | inl full ↦ rw full v
    | inr room ↦ rw room (ground (arith, length-set queue.q queue.last x))
  ]

  -- `queue_dequeue` keeps the invariant on every branch.
  pub dequeue-IsValid : (queue : Option (Queue A)) → IsValid? queue → IsValid? (dequeue queue).0
  unfolding dequeue
  dequeue-IsValid none v = tt
  dequeue-IsValid (some queue) v = elim (Bool-cases (queue.first == queue.last)) [
    | inl empty ↦ rw empty v
    | inr more ↦ rw more (ground arith)
  ]
