-- ===== src/Stack.antt =====
-- src/stack/stack.c as its clients see it: the traversals call `stack_push` under an assertion, on
-- stacks of their own, with elements that are not NULL.
mod Linked
mod Correct
mod Filled
mod Tests
use data_structures.Prelude.{◌≡◌, Bool, true, false, Option, some, List, [], ◌∷◌}

-- The calls; `none` of `push` is the assertion `assert(!stack_push(...))` that fails.
pub record Calls {ℓ} (A S : Type ℓ) : Type ℓ where
  pub push : S → A → Option S
  pub pop : S → S × Option A
  pub is_empty : S → Bool

abbrev pub is_nil {ℓ} : {A : Type ℓ} → List A → Bool
is_nil [] = true
is_nil (x ∷ xs) = false

-- What holds of the calls, while `malloc` succeeds: the elements, the last one pushed first.
pub record IsStack {ℓ} {A S : Type ℓ} (calls : Calls A S) : Type ℓ where
  pub contents : S → List A
  pub pushed :
      (s : S) (x : A) → (s' : S) × (calls.push s x ≡ some s') × (contents s' ≡ x ∷ contents s)
  pub popped :
      (s : S) (x : A) (xs : List A)
      → contents s ≡ x ∷ xs
      → (s' : S) × (calls.pop s ≡ (s', some x)) × (contents s' ≡ xs)
  pub empty-contents : (s : S) → calls.is_empty s ≡ is_nil (contents s)
