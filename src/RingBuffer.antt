-- ===== src/RingBuffer.antt =====
-- src/ring_buffer/rbuffer.c and include/ring_buffer/rbuffer.h: a ring of `data_t` over an array of
-- fixed capacity. A function that updates `*r` returns the new ring. The `uint32_t` indices keep
-- their wrap-around.
pub mod Fifo
pub mod Invariant
pub mod Refines
pub mod Print
mod Tests
use data_structures.Prelude.{
  ℕ, zero, suc, ◌+◌, ◌-◌, ◌%◌, ◌^◌, Bool, true, false, Option, none, some, List, [], ◌∷◌, ◌==◌,
  if◌then◌else◌, ltb, get_elem?, set, replicate, ◌>>=◌,
}

-- RING_BUFFER_CAPACITY
abbrev pub capacity : ℕ
capacity = 4

-- `uint32_t` arithmetic
abbrev pub add_u32 : ℕ → ℕ → ℕ
add_u32 a b = (a + b) % 2 ^ 32

abbrev pub sub_u32 : ℕ → ℕ → ℕ
sub_u32 a b = (a + 2 ^ 32 - b) % 2 ^ 32

-- `ring_buffer_t`. The type `data_t` is configurable; entries are only moved.
pub record Ring {ℓ} (A : Type ℓ) : Type ℓ where
  pub entries : List A
  pub head : ℕ
  pub tail : ℕ
  pub size : ℕ

module _ {ℓ} {A : Type ℓ} where
  pub is_full : Ring A → Bool
  is_full r = r.size == capacity

  pub is_empty : Ring A → Bool
  is_empty r = r.size == 0

  -- `zeroed` is the entry whose bytes `memset` has cleared.
  pub init : A → Ring A
  init zeroed = record { entries = replicate capacity zeroed; head = 0; tail = 0; size = 0 }

  -- A `set` out of range changes nothing; the invariant rules it out.
  pub push : Ring A → A → Ring A × Bool
  unfolding is_full
  push r value = if is_full r then (r, false) else (
    record r {
      entries = set r.entries r.tail value;
      tail = add_u32 r.tail 1 % capacity;
      size = add_u32 r.size 1;
    },
    true,
  )

  -- The option is what goes through `*data`; `return data` is true, as the pointer is not null,
  -- and `return NULL` is false. A read out of range writes nothing.
  pub pop : Ring A → Ring A × Option A × Bool
  unfolding is_empty
  pop r = if is_empty r then (r, none, false) else (
    record r { head = add_u32 r.head 1 % capacity; size = sub_u32 r.size 1 },
    get_elem? r.entries r.head,
    true,
  )

  -- The loop of `ring_buffer_print` from round `i`, with `rounds` left: the index and the entry
  -- that each round hands to the callback. `none` is a read out of range.
  print_loop : ℕ → ℕ → Ring A → Option (List (ℕ × A))
  print_loop zero i r = some []
  print_loop (suc rounds) i r =
      let index = add_u32 r.head i % capacity in
      let rest = print_loop rounds (i + 1) r in
      get_elem? r.entries index >>= λ x. rest >>= λ xs. some ((index, x) ∷ xs)

  -- `i` runs from 0 below `size`, so there are `size` rounds.
  pub print : Ring A → Option (List (ℕ × A))
  unfolding is_empty print_loop
  print r = if is_empty r then some [] else print_loop r.size 0 r
