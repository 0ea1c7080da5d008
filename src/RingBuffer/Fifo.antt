-- ===== src/RingBuffer/Fifo.antt =====
-- What a ring promises: a first-in first-out sequence of at most `cap` values, oldest first.
use data_structures.Prelude.{
  ℕ, Bool, true, false, Option, none, some, List, [], ◌∷◌, ◌++◌, ◌==◌, if◌then◌else◌, length,
}

module _ {ℓ} {A : Type ℓ} where
  unfoldable pub push : ℕ → List A → A → List A × Bool
  push cap q x = if length q == cap then (q, false) else (q ++ x ∷ [], true)

  unfoldable pub pop : List A → List A × Option A × Bool
  pop [] = ([], none, false)
  pop (x ∷ q) = (q, some x, true)

-- The calls of a client, and what it sees of each.
pub data Call {ℓ} (A : Type ℓ) : Type ℓ where
  put : A → Call A
  get : Call A

pub data Reply {ℓ} (A : Type ℓ) : Type ℓ where
  accepted : Bool → Reply A
  delivered : Option A → Bool → Reply A

unfoldable pub run {ℓ} : {A : Type ℓ} → ℕ → List A → List (Call A) → List (Reply A)
run cap q [] = []
run cap q (put x ∷ calls) = let (q', done) = push cap q x in accepted done ∷ run cap q' calls
run cap q (get ∷ calls) = let (q', out, done) = pop q in delivered out done ∷ run cap q' calls
