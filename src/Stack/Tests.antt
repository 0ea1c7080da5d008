-- ===== src/Stack/Tests.antt =====
-- The theorems at a small stack.
use data_structures.Prelude.{ℕ, ◌≡◌, refl, arith, some, [], ◌∷◌, if◌then◌else◌, ◌==◌, pos}
use data_structures.Stack.Linked.{Memory, push, pop, top, destroy}
use data_structures.Stack.Correct.{Holds, stack_push_correct, stack_pop_correct}

-- the entries 1, with 10, and 2, with 20, on the stack at 0
abbrev sample : Memory ℕ
sample = record {
  links = record {
    next = λ c. if c == 0 then 1 else if c == 1 then 2 else 0;
    prev = λ c. if c == 0 then 2 else if c == 1 then 0 else 1;
  };
  datum = λ c. if c == 1 then 10 else 20;
}

sample-Holds : Holds sample 0 (1 ∷ 2 ∷ []) (10 ∷ 20 ∷ [])
sample-Holds = record {
  ring = (
    ((refl, refl), ((refl, refl), (refl, refl))),
    ((omega arith, (omega arith, tt)), ((omega arith, tt), (tt, tt))),
  );
  values = refl;
}

destroy-sample : destroy 3 sample 0 ≡ some (1 ∷ 2 ∷ 0 ∷ [])
unfolding destroy
destroy-sample = refl

stack_push_correct_example :
    (memory' : Memory ℕ) × (push sample (some 0) (some 3) 30 ≡ (memory', pos 0))
    × Holds memory' 0 (3 ∷ 1 ∷ 2 ∷ []) (30 ∷ 10 ∷ 20 ∷ [])
stack_push_correct_example =
    stack_push_correct sample 0 3 (1 ∷ 2 ∷ []) (10 ∷ 20 ∷ []) 30 sample-Holds
      (omega arith, (omega arith, (omega arith, tt)))

stack_pop_correct_example :
    (memory' : Memory ℕ) × (top sample (some 0) ≡ some 10)
    × (pop sample (some 0) ≡ (memory', some (10, 1)))
    × Holds memory' 0 (2 ∷ []) (20 ∷ [])
stack_pop_correct_example = stack_pop_correct sample 0 1 (2 ∷ []) 10 (20 ∷ []) sample-Holds
