-- ===== src/RingBuffer/Invariant.antt =====
-- The representation invariant of `ring_buffer_t`.
use data_structures.Prelude.{◌+◌, ◌%◌, ◌≤◌, ◌<◌, ◌≡◌, arith, length, length-set}
use data_structures.RingBuffer.{Ring, capacity, init, push, pop}

pub record IsValid {ℓ} {A : Type ℓ} (r : Ring A) : Type 0 where
  pub storage : length r.entries ≡ capacity
  pub head_in : r.head < capacity
  pub size_in : r.size ≤ capacity
  pub tail_at : r.tail ≡ (r.head + r.size) % capacity

module _ {ℓ} {A : Type ℓ} where
  -- A ring just initialised is valid.
  pub init-IsValid : (zeroed : A) → IsValid (init zeroed)
  unfolding init
  init-IsValid zeroed = ground arith

  -- `ring_buffer_push` keeps the invariant, whether it accepts the value or not.
  pub push-IsValid : {r : Ring A} (x : A) → IsValid r → IsValid (push r x).0
  unfolding push
  push-IsValid {r} x v = ground (arith, length-set r.entries r.tail x)

  -- `ring_buffer_pop` keeps the invariant, on an empty ring too.
  pub pop-IsValid : {r : Ring A} → IsValid r → IsValid (pop r).0
  unfolding pop
  pop-IsValid v = ground arith
