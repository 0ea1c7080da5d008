-- ===== src/Queue/Lane.antt =====
-- What an array queue promises: the elements that wait, in order, and the room that is left. The
-- room only shrinks: an element that leaves does not give its place back.
use data_structures.Prelude.{
  ℕ, ◌-◌, Option, none, some, List, [], ◌∷◌, ◌++◌, ◌==◌, if◌then◌else◌, ℤ, pos, negsuc,
}

pub record Lane {ℓ} (A : Type ℓ) : Type ℓ where
  pub waiting : List A
  pub room : ℕ

module _ {ℓ} {A : Type ℓ} where
  unfoldable pub enter : Lane A → A → Lane A × ℤ
  enter l x =
      if l.room == 0
      then (l, negsuc 1)
      else (record l { waiting = l.waiting ++ x ∷ []; room = l.room - 1 }, pos 0)

  abbrev pub leave_from : List A → ℕ → Lane A × Option A
  leave_from [] room = (record { waiting = []; room = room }, none)
  leave_from (x ∷ xs) room = (record { waiting = xs; room = room }, some x)

  unfoldable pub leave : Lane A → Lane A × Option A
  leave l = leave_from l.waiting l.room
