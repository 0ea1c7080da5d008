-- ===== src/Stack/Filled.antt =====
-- The stack of src/stack/stack.c, on its kernel list, as its clients see it, while `malloc` gives
-- addresses that are not in use.
use data_structures.Prelude.{
  ℕ, ◌≡◌, ◌≢◌, refl, ap, ◌∙◌, Option, none, some, List, [], ◌∷◌, map, All, get_or,
}
use data_structures.KernelList.Correct
use data_structures.KernelList.Correct.{is_empty-IsRing}
use data_structures.Stack.{Calls, IsStack, is_nil}
use data_structures.Stack.Linked.{Memory, is_empty}
use data_structures.Stack.Correct.{Holds, stack_push_correct, stack_pop_correct, tail_of}

-- a stack in memory
pub record State {ℓ} (A : Type ℓ) : Type ℓ where
  pub memory : Memory A
  pub stack : ℕ
  pub nodes : List ℕ
  pub xs : List A
  pub holds : Holds memory stack nodes xs

module _ {ℓ} {A : Type ℓ} where
  nil_values :
      (f : ℕ → A) (nodes : List ℕ) (xs : List A)
      → map f nodes ≡ xs
      → Correct.is_nil nodes ≡ is_nil xs
  nil_values f [] xs e = ap is_nil e
  nil_values f (n ∷ nodes) xs e = ap is_nil e

  -- `stack_pop`: the memory that it leaves, and the data
  abbrev pop_held :
      (memory : Memory A) (stack : ℕ) (nodes : List ℕ) (xs : List A)
      → Holds memory stack nodes xs
      → State A × Option A
  pop_held memory stack (n ∷ nodes) (x ∷ xs) h =
      let (memory', top, run, h') = stack_pop_correct memory stack n nodes x xs h in
      (record { memory = memory'; stack = stack; nodes = nodes; xs = xs; holds = h' }, some x)
  pop_held memory stack [] xs h =
      (record { memory = memory; stack = stack; nodes = []; xs = xs; holds = h }, none)
  pop_held memory stack (n ∷ nodes) [] h =
      (record { memory = memory; stack = stack; nodes = n ∷ nodes; xs = []; holds = h }, none)

  popped_held :
      (memory : Memory A) (stack : ℕ) (nodes : List ℕ) (ys : List A)
      (h : Holds memory stack nodes ys) (x : A) (xs : List A)
      → ys ≡ x ∷ xs
      → (s' : State A) × (pop_held memory stack nodes ys h ≡ (s', some x)) × (s'.xs ≡ xs)
  popped_held memory stack nodes [] h x xs e = cc e
  popped_held memory stack [] (y ∷ ys) h x xs e = cc h.values
  popped_held memory stack (n ∷ nodes) (y ∷ ys) h x xs e =
      let s' = (pop_held memory stack (n ∷ nodes) (y ∷ ys) h).0 in
      (s', ap (λ l. (s', some (get_or l 0 x))) e, ap tail_of e)

module _ {ℓ} {A : Type ℓ} (malloc : List ℕ → ℕ)
    (unused : (used : List ℕ) → All (λ c. c ≢ malloc used) used) where
  abbrev pushed : State A → A → State A
  pushed s x =
      let entry = malloc (s.stack ∷ s.nodes) in
      let (memory', run, h) =
        stack_push_correct s.memory s.stack entry s.nodes s.xs x s.holds
          (unused (s.stack ∷ s.nodes)) in
      record {
        memory = memory';
        stack = s.stack;
        nodes = entry ∷ s.nodes;
        xs = x ∷ s.xs;
        holds = h;
      }

  -- the calls of `stack_push`, under the assertion, `stack_pop` and `stack_is_empty`
  abbrev pub linked_calls : Calls A (State A)
  linked_calls = record {
    push = λ s x. some (pushed s x);
    pop = λ s. pop_held s.memory s.stack s.nodes s.xs s.holds;
    is_empty = λ s. is_empty s.memory s.stack;
  }

  -- They keep what the traversals of the trees rely on.
  pub linked-IsStack : IsStack linked_calls
  unfolding is_empty
  linked-IsStack = record {
    contents = λ s. s.xs;
    pushed = λ s x. (pushed s x, refl, refl);
    popped = λ s x xs e. popped_held s.memory s.stack s.nodes s.xs s.holds x xs e;
    empty-contents = λ s.
        is_empty-IsRing s.memory.links s.stack s.nodes s.holds.ring
        ∙ nil_values s.memory.datum s.nodes s.xs s.holds.values;
  }
