-- ===== src/BinaryTree/Tests.antt =====
-- The traversals on concrete trees, with the queue of src/queue/queue.c.
use data_structures.Prelude.{
  ℕ, ◌+◌, ◌^◌, ◌≡◌, refl, ap, arith, Bool, true, Option, none, some, List, [], ◌∷◌, replicate,
  length-replicate, ◌↔◌,
}
use data_structures.Queue.{Queue, create, enqueue, dequeue, is_empty}
use data_structures.Queue.Interface.{calls, calls-IsQueue, create-Good}
use data_structures.Stack
use data_structures.BinaryTree.{
  Tree, leaf, node, size, depth_recursive, pre_order_print, post_order_print,
}
use data_structures.BinaryTree.Stacked.{pre_order_iterative_print, post_order_iterative_print}
use data_structures.BinaryTree.Iterative.{pre_order_iterative_correct, post_order_iterative_correct}
use data_structures.BinaryTree.Levels.{level_order}
use data_structures.BinaryTree.Queued.{
  level_loop, enqueue_child, print_data, half_data, on_front, on_visited, level_order_print,
  depth_iterative, divide_two_halves, is_perfect,
}
use data_structures.BinaryTree.Walk.{level_order_print_correct}
use data_structures.BinaryTree.Depth.{depth_iterative_correct}
use data_structures.BinaryTree.Halves.{any_node, is_half, divide_two_halves_correct}
use data_structures.BinaryTree.Perfect.{is_perfect_correct}

abbrev single : ℕ → Tree ℕ
single x = node leaf x leaf

abbrev three : Tree ℕ
three = node (single 2) 1 (single 3)

abbrev six : Tree ℕ
six = node three 5 (node leaf 6 (single 7))

abbrev fresh : Option (Queue (Tree ℕ))
fresh = create true (some (replicate 128 leaf)) 128

prints : level_order_print calls 10 (some fresh) six ≡ some (5 ∷ 1 ∷ 6 ∷ 2 ∷ 3 ∷ 7 ∷ [])
unfolding level_order_print enqueue create level_loop is_empty dequeue enqueue_child print_data
    on_front on_visited
prints = refl

halves : divide_two_halves calls 10 (some fresh) six ≡ some true
unfolding divide_two_halves enqueue create level_loop is_empty dequeue enqueue_child half_data
    on_front on_visited
halves = refl

fresh_room :
    calls-IsQueue.Good fresh × (calls-IsQueue.lane fresh ≡ record { waiting = []; room = 128 })
fresh_room =
    create-Good (replicate 128 leaf) 128 (length-replicate {A = Tree ℕ} 128 leaf) (omega arith)

fresh_waiting : (calls-IsQueue.lane fresh).waiting ≡ []
fresh_waiting = ap (λ l. l.waiting) fresh_room.1

fresh_left : (calls-IsQueue.lane fresh).room ≡ 128
fresh_left = ap (λ l. l.room) fresh_room.1

level_order_print_example : level_order_print calls 10 (some fresh) six ≡ some (level_order six)
level_order_print_example =
    level_order_print_correct calls calls-IsQueue 10 six fresh fresh_room.0 fresh_waiting
      (omega (arith, fresh_left)) (omega arith)

depth_iterative_example : depth_iterative calls 10 (some fresh) six ≡ some (depth_recursive six)
depth_iterative_example =
    depth_iterative_correct calls calls-IsQueue 10 six fresh fresh_room.0 fresh_waiting
      (omega (arith, fresh_left)) (omega arith)

divide_two_halves_example :
    divide_two_halves calls 10 (some fresh) six ≡ some (any_node (is_half (size six)) six)
divide_two_halves_example =
    divide_two_halves_correct calls calls-IsQueue 10 six fresh fresh_room.0 fresh_waiting
      (omega (arith, fresh_left)) (omega arith)

is_perfect_example :
    (b : Bool) × (is_perfect calls 10 (some fresh) three ≡ some b)
    × ((b ≡ true) ↔ (size three + 1 ≡ 2 ^ depth_recursive three))
is_perfect_example =
    is_perfect_correct calls calls-IsQueue 10 (single 2) 1 (single 3) fresh fresh_room.0
      fresh_waiting (omega (arith, fresh_left)) (omega arith)

abbrev pop_list : List (Tree ℕ) → List (Tree ℕ) × Option (Tree ℕ)
pop_list [] = ([], none)
pop_list (x ∷ xs) = (xs, some x)

abbrev list_calls : Stack.Calls (Tree ℕ) (List (Tree ℕ))
list_calls = record { push = λ s x. some (x ∷ s); pop = pop_list; is_empty = Stack.is_nil }

list-IsStack : Stack.IsStack list_calls
list-IsStack = record {
  contents = λ s. s;
  pushed = λ s x. (x ∷ s, refl, refl);
  popped = λ s x xs e. (xs, rw e refl, refl);
  empty-contents = λ s. refl;
}

empty_list : list-IsStack.contents [] ≡ []
unfolding list-IsStack
empty_list = refl

pre_order_iterative_example :
    pre_order_iterative_print list_calls 10 (some []) six ≡ some (pre_order_print six)
pre_order_iterative_example =
    pre_order_iterative_correct list_calls list-IsStack 10 six [] empty_list (omega arith)

post_order_iterative_example :
    post_order_iterative_print list_calls 10 (some []) (some []) six ≡ some (post_order_print six)
post_order_iterative_example =
    post_order_iterative_correct list_calls list-IsStack 10 six [] [] empty_list empty_list
      (omega arith)
