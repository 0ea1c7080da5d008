-- ===== src/Prelude/Monad.antt =====
-- Fallible steps: an `Option` whose `none` is what the C code cannot return from, such as a failed
-- assertion or a read through a pointer that leads nowhere.
use mathlib.Core.Option.{Option, none, some}

infixl 5 ◌>>=◌
abbrev pub ◌>>=◌ {ℓ κ} : {A : Type ℓ} {B : Type κ} → Option A → (A → Option B) → Option B
none >>= f = none
some a >>= f = f a
