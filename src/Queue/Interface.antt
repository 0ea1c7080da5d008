-- ===== src/Queue/Interface.antt =====
-- What the clients of src/queue/queue.c use of it: the traversals call `queue_enqueue` under an
-- assertion, on a queue of their own, with elements that are not NULL.
use data_structures.Prelude.{
  ℕ, zero, suc, ◌-◌, ◌^◌, ◌<◌, ◌≡◌, refl, ap, arith, Bool, true, false, Option, none, some, List,
  [], ◌∷◌, ◌++◌, ◌==◌, length, ℤ, pos, negsuc,
}
use mathlib.Core.Option.{some-injective}
use data_structures.Queue.{Queue, create, enqueue, dequeue, is_empty, size}
use data_structures.Queue.Lane
use data_structures.Queue.Lane.{Lane}
use data_structures.Queue.Invariant.{
  IsValid, IsValid?, enqueue-IsValid, dequeue-IsValid, create-IsValid,
}
use data_structures.Queue.Refines.{
  lane, lane?, slice-zero, enqueue_refines, dequeue_refines, size-lane,
}

-- The calls; `none` of `enqueue` is the assertion `assert(!queue_enqueue(...))` that fails.
pub record Calls {ℓ} (A Q : Type ℓ) : Type ℓ where
  pub enqueue : Q → A → Option Q
  pub dequeue : Q → Q × Option A
  pub is_empty : Q → Bool
  pub size : Q → ℕ

-- What holds of the calls, for what waits in a queue and the room that is left in it.
pub record IsQueue {ℓ} {A Q : Type ℓ} (calls : Calls A Q) : Type (ℓ ⊔ 1) where
  pub Good : Q → Type 0
  pub lane : Q → Lane A
  pub enqueued :
      (q : Q) (x : A) (r : ℕ)
      → Good q
      → (lane q).room ≡ suc r
      → (q' : Q) × (calls.enqueue q x ≡ some q')
        × Good q'
        × (lane q' ≡ record { waiting = (lane q).waiting ++ x ∷ []; room = r })
  pub refused : (q : Q) (x : A) → Good q → (lane q).room ≡ 0 → calls.enqueue q x ≡ none
  pub dequeued :
      (q : Q) (x : A) (xs : List A)
      → Good q
      → (lane q).waiting ≡ x ∷ xs
      → (q' : Q) × (calls.dequeue q ≡ (q', some x))
        × Good q'
        × (lane q' ≡ record { waiting = xs; room = (lane q).room })
  pub empty-waiting : (q : Q) → Good q → calls.is_empty q ≡ (length (lane q).waiting == 0)
  pub size-waiting : (q : Q) → Good q → calls.size q ≡ length (lane q).waiting

module _ {ℓ} {A : Type ℓ} where
  -- the assertion that `queue_enqueue` returned 0
  abbrev pub asserted : Option (Queue A) × ℤ → Option (Option (Queue A))
  asserted (queue, pos zero) = some queue
  asserted (queue, pos (suc n)) = none
  asserted (queue, negsuc n) = none

  abbrev pub calls : Calls A (Option (Queue A))
  calls = record {
    enqueue = λ queue x. asserted (enqueue queue (some x));
    dequeue = dequeue;
    is_empty = is_empty;
    size = size;
  }

  abbrev pub IsLive : Option (Queue A) → Type 0
  IsLive none = ⊥
  IsLive (some queue) = IsValid queue

  abbrev pub lane_of : Option (Queue A) → Lane A
  lane_of none = record { waiting = []; room = 0 }
  lane_of (some queue) = lane queue

  accept :
      (out : Option (Queue A) × ℤ) (l : Lane A)
      → IsValid? out.0
      → lane? out.0 ≡ some l
      → out.1 ≡ pos 0
      → (queue : Option (Queue A)) × (asserted out ≡ some queue)
        × IsLive queue
        × (lane_of queue ≡ l)
  accept (none, status) l v e f = cc e
  accept (some queue, status) l v e f = rw f (some queue, refl, v, some-injective _ _ e)

  hand_out :
      (out : Option (Queue A) × Option A) (l : Lane A) (x : A)
      → IsValid? out.0
      → lane? out.0 ≡ some l
      → out.1 ≡ some x
      → (queue : Option (Queue A)) × (out ≡ (queue, some x)) × IsLive queue × (lane_of queue ≡ l)
  hand_out (none, elem) l x v e f = cc e
  hand_out (some queue, elem) l x v e f =
      (some queue, ap (λ y. (some queue, y)) f, v, some-injective _ _ e)

  pub enqueued :
      (queue : Option (Queue A)) (x : A) (r : ℕ)
      → IsLive queue
      → (lane_of queue).room ≡ suc r
      → (queue' : Option (Queue A)) × (calls.enqueue queue x ≡ some queue')
        × IsLive queue'
        × (lane_of queue' ≡ record { waiting = (lane_of queue).waiting ++ x ∷ []; room = r })
  unfolding Lane.enter
  enqueued none x r live left = elim live [ ]
  enqueued (some queue) x r live left =
      let more : (suc r == 0) ≡ false = ground arith in
      let fewer : suc r - 1 ≡ r = omega arith in
      let (stands, status) = enqueue_refines queue x live in
      accept (enqueue (some queue) (some x)) _ (enqueue-IsValid (some queue) (some x) live)
        (rw (left, more, fewer) at stands) (rw (left, more) at status)

  not_asserted : (out : Option (Queue A) × ℤ) (n : ℕ) → out.1 ≡ negsuc n → asserted out ≡ none
  not_asserted (queue, status) n e = rw e refl

  pub refused :
      (queue : Option (Queue A)) (x : A)
      → IsLive queue
      → (lane_of queue).room ≡ 0
      → calls.enqueue queue x ≡ none
  unfolding Lane.enter
  refused none x live none_left = elim live [ ]
  refused (some queue) x live none_left =
      let (stands, status) = enqueue_refines queue x live in
      let failed : (enqueue (some queue) (some x)).1 ≡ negsuc 1 = rw none_left at status in
      not_asserted (enqueue (some queue) (some x)) 1 failed

  pub dequeued :
      (queue : Option (Queue A)) (x : A) (xs : List A)
      → IsLive queue
      → (lane_of queue).waiting ≡ x ∷ xs
      → (queue' : Option (Queue A)) × (calls.dequeue queue ≡ (queue', some x))
        × IsLive queue'
        × (lane_of queue' ≡ record { waiting = xs; room = (lane_of queue).room })
  unfolding Lane.leave
  dequeued none x xs live more = elim live [ ]
  dequeued (some queue) x xs live more =
      let (stands, out) = dequeue_refines queue live in
      hand_out (dequeue (some queue)) _ x (dequeue-IsValid (some queue) live) (rw more at stands)
        (rw more at out)

  pub empty-waiting :
      (queue : Option (Queue A))
      → IsLive queue
      → is_empty queue ≡ (length (lane_of queue).waiting == 0)
  empty-waiting none live = elim live [ ]
  empty-waiting (some queue) live = (size-lane queue live).1

  pub size-waiting :
      (queue : Option (Queue A)) → IsLive queue → size queue ≡ length (lane_of queue).waiting
  size-waiting none live = elim live [ ]
  size-waiting (some queue) live = (size-lane queue live).0

  -- `queue_enqueue`, `queue_dequeue`, `queue_is_empty` and `queue_size` keep what the clients rely
  -- on.
  unfoldable pub calls-IsQueue : IsQueue calls
  calls-IsQueue = record {
    Good = IsLive;
    lane = lane_of;
    enqueued = enqueued;
    refused = refused;
    dequeued = dequeued;
    empty-waiting = empty-waiting;
    size-waiting = size-waiting;
  }

  -- A queue that `queue_create` made for `n` elements is empty and has room for `n`.
  pub create-Good :
      (storage : List A) (n : ℕ)
      → length storage ≡ n
      → n < 2 ^ 32
      → calls-IsQueue.Good (create true (some storage) n)
        × (calls-IsQueue.lane (create true (some storage) n) ≡ record { waiting = []; room = n })
  unfolding create calls-IsQueue
  create-Good storage n e f =
      let whole : n - 0 ≡ n = omega arith in
      (create-IsValid storage n e f, rw (slice-zero storage 0, whole) refl)
