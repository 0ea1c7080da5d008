-- ===== src/Queue.antt =====
-- src/queue/queue.c and include/queue/queue.h: a queue of pointers over an array that is filled
-- once, from front to back. The pointers `_h` and `_t` into the array are indices. A queue or an
-- element that is NULL is `none`; a function that updates `*queue` returns the new queue.
pub mod Lane
pub mod Invariant
pub mod Refines
pub mod Interface
mod Tests
use data_structures.Prelude.{
  ℕ, zero, suc, ◌+◌, ◌-◌, ◌%◌, ◌^◌, Bool, true, false, Option, none, some, List, [], ◌∷◌, ◌==◌,
  if◌then◌else◌, leb, get_elem?, set, ℤ, pos, negsuc, ◌>>=◌,
}

-- `queue_t`; `first` is `_h` and `last` is `_t`
pub record Queue {ℓ} (A : Type ℓ) : Type ℓ where
  pub q : List A
  pub size : ℕ
  pub first : ℕ
  pub last : ℕ

module _ {ℓ} {A : Type ℓ} where
  -- `handle` says whether the first `malloc` succeeds, and `storage` is the array that the second
  -- one gives, with whatever it holds.
  unfoldable pub create : (handle : Bool) (storage : Option (List A)) → ℕ → Option (Queue A)
  create handle storage size =
      if handle
      then (storage >>= λ q. some (record { q = q; size = size; first = 0; last = 0 }))
      else none

  -- The loop of `queue_display` from index `it`, over the `rounds` entries before `_t`: what the
  -- callback is given. `none` is a read out of range.
  display_loop : ℕ → ℕ → Queue A → Option (List A)
  display_loop zero it queue = some []
  display_loop (suc rounds) it queue =
      let rest = display_loop rounds (suc it) queue in
      get_elem? queue.q it >>= λ x. rest >>= λ xs. some (x ∷ xs)

  unfoldable pub display : Option (Queue A) → Option (List A)
  unfolding display_loop
  display none = some []
  display (some queue) = display_loop (queue.last - queue.first) queue.first queue

  -- 0 on success, -1 for a NULL argument, -2 for an array that is used up
  unfoldable pub enqueue : Option (Queue A) → Option A → Option (Queue A) × ℤ
  enqueue none elem = (none, negsuc 0)
  enqueue (some queue) none = (some queue, negsuc 0)
  enqueue (some queue) (some elem) =
      if leb queue.size queue.last
      then (some queue, negsuc 1)
      else (some (record queue { q = set queue.q queue.last elem; last = queue.last + 1 }), pos 0)

  unfoldable pub dequeue : Option (Queue A) → Option (Queue A) × Option A
  dequeue none = (none, none)
  dequeue (some queue) =
      if queue.first == queue.last
      then (some queue, none)
      else (some (record queue { first = queue.first + 1 }), get_elem? queue.q queue.first)

  unfoldable pub is_empty : Option (Queue A) → Bool
  is_empty none = false
  is_empty (some queue) = queue.first == queue.last

  -- The difference of the pointers, as an `unsigned int`.
  unfoldable pub size : Option (Queue A) → ℕ
  size none = 0
  size (some queue) = (queue.last + 2 ^ 32 - queue.first) % 2 ^ 32
