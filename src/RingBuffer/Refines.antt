-- ===== src/RingBuffer/Refines.antt =====
-- A valid ring behaves as the bounded first-in first-out sequence of the values that it holds.
use data_structures.Prelude.{
  ℕ, zero, suc, ◌+◌, ◌-◌, ◌%◌, ◌<◌, ◌≡◌, ◌≢◌, refl, ap, ap₂, arith, List, [], ◌∷◌, ◌++◌, inl, inr,
  true, Bool-cases, ◌==◌, length, get_or, set, get_elem?-eq-get_or, get_or-set_self, get_or-set_ne,
}
use data_structures.RingBuffer.{Ring, capacity, add_u32, push, pop, init}
use data_structures.RingBuffer.Fifo
use data_structures.RingBuffer.Fifo.{Call, put, get, Reply, accepted, delivered}
use data_structures.RingBuffer.Invariant.{IsValid, push-IsValid, pop-IsValid, init-IsValid}

module _ {ℓ} {A : Type ℓ} where
  -- the `n` entries from index `h` on, going round at the capacity
  abbrev pub window : A → List A → ℕ → ℕ → List A
  window d entries h zero = []
  window d entries h (suc n) = get_or entries h d ∷ window d entries ((h + 1) % capacity) n

  -- The values of a ring, oldest first; `d` stands for a read out of range, which no valid ring has.
  abbrev pub contents : A → Ring A → List A
  contents d r = window d r.entries r.head r.size

  length-window : (d : A) (entries : List A) (h n : ℕ) → length (window d entries h n) ≡ n
  length-window d entries h zero = refl
  length-window d entries h (suc n) = ap suc (length-window d entries ((h + 1) % capacity) n)

  window_of_ne_zero :
      (d : A) (entries : List A) (h n : ℕ)
      → n ≢ 0
      → window d entries h n ≡ get_or entries h d ∷ window d entries ((h + 1) % capacity) (n - 1)
  window_of_ne_zero d entries h zero p = absurd (p refl)
  window_of_ne_zero d entries h (suc n) p = ap (λ k. window d entries h (suc k)) (omega arith)

  -- Writing just past a window extends it by that value.
  window-set :
      (d : A) (entries : List A) (x : A) (n h i : ℕ)
      → length entries ≡ capacity
      → h < capacity
      → n < capacity
      → i ≡ (h + n) % capacity
      → window d (set entries i x) h (suc n) ≡ window d entries h n ++ x ∷ []
  window-set d entries x zero h i size hh hn e =
      let at : i ≡ h = omega arith in rw (at, get_or-set_self entries h x d (omega arith))
  window-set d entries x (suc n) h i size hh hn e =
      ap₂ ◌∷◌ (get_or-set_ne entries x d (omega arith)) (
        window-set d entries x n ((h + 1) % capacity) i size (omega arith) (omega arith)
          (omega arith))

  -- On a valid ring `ring_buffer_push` answers as the bounded sequence does, and leaves the ring
  -- holding what the sequence then holds.
  pub push_refines :
      (d : A) {r : Ring A} (x : A)
      → IsValid r
      → let (r', done) = push r x in (contents d r', done) ≡ Fifo.push capacity (contents d r) x
  unfolding push Fifo.push
  push_refines d {r} x v = elim (Bool-cases (r.size == capacity)) [
    | inl full ↦ rw (full, length-window d r.entries r.head r.size, full)
    | inr room ↦
        let room_left : r.size < capacity = ground arith in
        let grown : add_u32 r.size 1 ≡ suc r.size = omega arith in
        rw (room, length-window d r.entries r.head r.size, room, grown)
          (ap (λ q. (q, true))
            (window-set d r.entries x r.size r.head r.tail v.storage v.head_in room_left v.tail_at))
  ]

  -- On a valid ring `ring_buffer_pop` delivers what the bounded sequence delivers, and leaves the
  -- ring holding the rest.
  pub pop_refines :
      (d : A) {r : Ring A}
      → IsValid r
      → let (r', out, done) = pop r in (contents d r', out, done) ≡ Fifo.pop (contents d r)
  unfolding pop Fifo.pop
  pop_refines d {r} v =
      ground
        (arith, window_of_ne_zero d r.entries r.head r.size, get_elem?-eq-get_or r.entries r.head d)

  -- a client's calls in order, with what each returns
  unfoldable pub run : Ring A → List (Call A) → List (Reply A)
  run r [] = []
  run r (put x ∷ calls) = let (r', done) = push r x in accepted done ∷ run r' calls
  run r (get ∷ calls) = let (r', out, done) = pop r in delivered out done ∷ run r' calls

  -- No sequence of pushes and pops tells a valid ring from the sequence of at most four values
  -- that it holds.
  pub run_refines :
      (d : A) (calls : List (Call A)) {r : Ring A}
      → IsValid r
      → run r calls ≡ Fifo.run capacity (contents d r) calls
  unfolding run Fifo.run
  run_refines d [] v = refl
  run_refines d (put x ∷ calls) v =
      rw (run_refines d calls (push-IsValid x v), ← push_refines d x v)
  run_refines d (get ∷ calls) v = rw (run_refines d calls (pop-IsValid v), ← pop_refines d v)

  -- From `ring_buffer_init` on, no sequence of pushes and pops tells the ring from an empty
  -- sequence of at most four values.
  pub run-init :
      (zeroed : A) (calls : List (Call A)) → run (init zeroed) calls ≡ Fifo.run capacity [] calls
  unfolding init
  run-init zeroed calls = run_refines zeroed calls (init-IsValid zeroed)
