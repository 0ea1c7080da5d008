-- ===== src/BinaryTree/Stacked.antt =====
-- src/tree/binary_tree.c: the traversals that keep the nodes to visit on stacks. The calls of the
-- stack are a parameter; `none` is an assertion that fails. `created` is what `stack_create` gave.
use data_structures.Prelude.{
  ℕ, zero, suc, Option, none, some, List, [], ◌∷◌, ◌++◌, if◌then◌else◌, ◌>>=◌,
}
use data_structures.Stack.{Calls}
use data_structures.BinaryTree.{Tree, leaf, node}

module _ {ℓ} {A S : Type ℓ} (calls : Calls (Tree A) S) where
  -- if (child) assert(!stack_push(stack, child))
  unfoldable pub push_child : S → Tree A → Option S
  push_child stack leaf = some stack
  push_child stack (node l x r) = calls.push stack (node l x r)

  -- assert(crt), its data, and its children, the right one first
  unfoldable pub pre_order_top :
      (S → List A → Option (List A)) → S × Option (Tree A) → List A → Option (List A)
  pre_order_top rest (stack, none) out = none
  pre_order_top rest (stack, some leaf) out = none
  pre_order_top rest (stack, some (node left x right)) out = push_child stack right >>= λ stack'.
      push_child stack' left >>= λ stack''. rest stack'' (out ++ x ∷ [])

  unfoldable pub pre_order_loop : ℕ → S → List A → Option (List A)
  unfolding pre_order_top
  pre_order_loop zero stack out = none
  pre_order_loop (suc fuel) stack out =
      let rest = pre_order_loop fuel in
      if calls.is_empty stack then some out else pre_order_top rest (calls.pop stack) out

  unfoldable pub pre_order_iterative_print :
      (fuel : ℕ) (created : Option S) → Tree A → Option (List A)
  unfolding pre_order_loop
  pre_order_iterative_print fuel created leaf = some []
  pre_order_iterative_print fuel none (node l x r) = none
  pre_order_iterative_print fuel (some stack) (node l x r) =
      calls.push stack (node l x r) >>= λ stack'. pre_order_loop fuel stack' []

  unfoldable pub post_order_top : (S → S → Option S) → S × Option (Tree A) → S → Option S
  post_order_top rest (stack1, none) stack2 = none
  post_order_top rest (stack1, some leaf) stack2 = none
  post_order_top rest (stack1, some (node left x right)) stack2 =
      calls.push stack2 (node left x right) >>= λ stack2'. push_child stack1 left >>= λ stack1'.
      push_child stack1' right >>= λ stack1''. rest stack1'' stack2'

  -- the first loop, which fills the second stack
  unfoldable pub post_order_fill : ℕ → S → S → Option S
  unfolding post_order_top
  post_order_fill zero stack1 stack2 = none
  post_order_fill (suc fuel) stack1 stack2 =
      let rest = post_order_fill fuel in
      if calls.is_empty stack1 then some stack2 else post_order_top rest (calls.pop stack1) stack2

  unfoldable pub print_top :
      (S → List A → Option (List A)) → S × Option (Tree A) → List A → Option (List A)
  print_top rest (stack, none) out = none
  print_top rest (stack, some leaf) out = none
  print_top rest (stack, some (node left x right)) out = rest stack (out ++ x ∷ [])

  -- the second loop, which prints
  unfoldable pub print_stack : ℕ → S → List A → Option (List A)
  unfolding print_top
  print_stack zero stack out = none
  print_stack (suc fuel) stack out =
      let rest = print_stack fuel in
      if calls.is_empty stack then some out else print_top rest (calls.pop stack) out

  -- Each stack is what `stack_create` returned; a push on NULL returns -1, and the assertion on it
  -- fails. The stacks share no entry, so each has a state of its own.
  unfoldable pub post_order_iterative_print :
      (fuel : ℕ) (created1 created2 : Option S) → Tree A → Option (List A)
  unfolding post_order_fill print_stack
  post_order_iterative_print fuel created1 created2 leaf = some []
  post_order_iterative_print fuel none created2 (node l x r) = none
  post_order_iterative_print fuel (some created1) none (node l x r) = none
  post_order_iterative_print fuel (some created1) (some created2) (node l x r) =
      calls.push created1 (node l x r) >>= λ stack1.
      post_order_fill fuel stack1 created2 >>= λ stack2. print_stack fuel stack2 []
