-- ===== src/Queue/Refines.antt =====
-- A valid queue behaves as the lane of the elements that it holds.
use data_structures.Prelude.{
  ℕ, zero, suc, ◌+◌, ◌-◌, ◌≤◌, ◌<◌, ◌≡◌, refl, ap, arith, true, false, Option, none, some, List, [],
  ◌∷◌, ◌++◌, inl, inr, Bool-cases, ◌==◌, leb, length, get_elem?, set,
}
use data_structures.Queue.{Queue, enqueue, dequeue, display, display_loop, is_empty, size}
use data_structures.Queue.Lane
use data_structures.Queue.Lane.{Lane, leave_from}
use data_structures.Queue.Invariant.{IsValid}

module _ {ℓ} {A : Type ℓ} where
  -- the `n` entries from index `lo` on
  abbrev pub slice : List A → ℕ → ℕ → List A
  slice [] lo n = []
  slice (x ∷ xs) zero zero = []
  slice (x ∷ xs) zero (suc n) = x ∷ slice xs zero n
  slice (x ∷ xs) (suc lo) n = slice xs lo n

  pub slice-zero : (xs : List A) (lo : ℕ) → slice xs lo 0 ≡ []
  slice-zero [] lo = refl
  slice-zero (x ∷ xs) zero = refl
  slice-zero (x ∷ xs) (suc lo) = slice-zero xs lo

  slice-suc :
      (xs : List A) (lo n : ℕ)
      → lo < length xs
      → (x : A) × (get_elem? xs lo ≡ some x) × (slice xs lo (suc n) ≡ x ∷ slice xs (suc lo) n)
  slice-suc [] lo n h = elim h [ ]
  slice-suc (x ∷ xs) zero n h = (x, refl, ap (◌∷◌ x) (step xs n))
    where
      step : (xs : List A) (n : ℕ) → slice xs zero n ≡ slice (x ∷ xs) 1 n
      step xs n = refl
  slice-suc (x ∷ xs) (suc lo) n h = slice-suc xs lo n (omega arith)

  slice-set :
      (xs : List A) (lo n i : ℕ) (v : A)
      → i ≡ lo + n
      → i < length xs
      → slice (set xs i v) lo (suc n) ≡ slice xs lo n ++ v ∷ []
  slice-set [] lo n i v e h = elim h [ ]
  slice-set (x ∷ xs) zero zero zero v e h = ap (◌∷◌ v) (slice-zero xs 0)
  slice-set (x ∷ xs) zero zero (suc i) v e h = absurd (omega arith)
  slice-set (x ∷ xs) zero (suc n) zero v e h = absurd (omega arith)
  slice-set (x ∷ xs) zero (suc n) (suc i) v e h =
      ap (◌∷◌ x) (slice-set xs zero n i v (omega arith) (omega arith))
  slice-set (x ∷ xs) (suc lo) n zero v e h = absurd (omega arith)
  slice-set (x ∷ xs) (suc lo) n (suc i) v e h = slice-set xs lo n i v (omega arith) (omega arith)

  -- The lane that a queue stands for: what waits between the indices, and the unused entries.
  abbrev pub lane : Queue A → Lane A
  lane queue = record {
    waiting = slice queue.q queue.first (queue.last - queue.first);
    room = queue.size - queue.last;
  }

  abbrev pub lane? : Option (Queue A) → Option (Lane A)
  lane? none = none
  lane? (some queue) = some (lane queue)

  length-slice : (xs : List A) (lo n : ℕ) → lo + n ≤ length xs → length (slice xs lo n) ≡ n
  length-slice [] lo n h = omega arith
  length-slice (x ∷ xs) zero zero h = refl
  length-slice (x ∷ xs) zero (suc n) h = ap suc (length-slice xs zero n (omega arith))
  length-slice (x ∷ xs) (suc lo) n h = length-slice xs lo n (omega arith)

  -- On a valid queue `queue_enqueue` answers as the lane does, and leaves the queue standing for
  -- what the lane then is.
  pub enqueue_refines :
      (queue : Queue A) (x : A)
      → IsValid queue
      → let (queue', status) = enqueue (some queue) (some x) in
        let (l, answer) = Lane.enter (lane queue) x in (lane? queue' ≡ some l) × (status ≡ answer)
  unfolding enqueue Lane.enter
  enqueue_refines queue x v = elim (Bool-cases (leb queue.size queue.last)) [
    | inl full ↦
        let no_room : (queue.size - queue.last == 0) ≡ true = ground arith in
        rw (full, no_room) (refl, refl)
    | inr left ↦
        let room : (queue.size - queue.last == 0) ≡ false = ground arith in
        let count : queue.last + 1 - queue.first ≡ suc (queue.last - queue.first) =
          omega (arith, v.ordered) in
        let fewer : queue.size - (queue.last + 1) ≡ queue.size - queue.last - 1 = omega arith in
        let longer =
          slice-set queue.q queue.first (queue.last - queue.first) queue.last x
            (omega (arith, v.ordered)) (ground (arith, v.storage)) in
        rw (left, room, count, fewer, longer) (refl, refl)
  ]

  -- On a valid queue `queue_dequeue` hands out what leaves the lane, and leaves the queue standing
  -- for what the lane then is.
  pub dequeue_refines :
      (queue : Queue A)
      → IsValid queue
      → let (queue', out) = dequeue (some queue) in
        let (l, x) = Lane.leave (lane queue) in (lane? queue' ≡ some l) × (out ≡ x)
  unfolding dequeue Lane.leave
  dequeue_refines queue v = elim (Bool-cases (queue.first == queue.last)) [
    | inl empty ↦
        let none_left : queue.last - queue.first ≡ 0 = ground arith in
        rw (empty, none_left, slice-zero queue.q queue.first) (refl, refl)
    | inr more ↦
        let left : queue.last - queue.first ≡ suc (queue.last - (queue.first + 1)) =
          ground (arith, v.ordered) in
        let next : suc queue.first ≡ queue.first + 1 = omega arith in
        let (x, got, rest) =
          slice-suc queue.q queue.first (queue.last - (queue.first + 1))
            (ground (arith, v.ordered, v.inside, v.storage)) in
        rw (more, left, rest, got, next) (refl, refl)
  ]

  -- `queue_size` is the number of elements that wait, and `queue_is_empty` says whether there is
  -- none.
  pub size-lane :
      (queue : Queue A)
      → IsValid queue
      → (size (some queue) ≡ length (lane queue).waiting)
        × (is_empty (some queue) ≡ (length (lane queue).waiting == 0))
  unfolding size is_empty
  size-lane queue v =
      let count = length-slice queue.q queue.first (queue.last - queue.first) (omega arith) in
      (omega (arith, count), rw count (ground arith))

  display_loop-slice :
      (queue : Queue A) (n it : ℕ)
      → it + n ≤ length queue.q
      → display_loop n it queue ≡ some (slice queue.q it n)
  unfolding display_loop
  display_loop-slice queue zero it h = rw slice-zero
  display_loop-slice queue (suc n) it h =
      let (x, got, rest) = slice-suc queue.q it n (omega arith) in
      rw (got, display_loop-slice queue n (suc it) (omega arith), rest)

  -- `queue_display` on a valid queue reads nothing out of range, and gives the callback the
  -- elements that wait, in order.
  pub display-lane :
      (queue : Queue A) → IsValid queue → display (some queue) ≡ some (lane queue).waiting
  unfolding display
  display-lane queue v =
      display_loop-slice queue (queue.last - queue.first) queue.first (omega arith)
