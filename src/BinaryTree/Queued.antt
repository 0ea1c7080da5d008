-- ===== src/BinaryTree/Queued.antt =====
-- src/tree/binary_tree.c and src/tree/binary_tree_problems.c: the functions that line the nodes up
-- in a queue. The calls of the queue are a parameter, and `created` is what `queue_create` gave;
-- `none` is an assertion that fails.
use data_structures.Prelude.{
  ℕ, zero, suc, ◌+◌, ◌-◌, Bool, true, false, Option, none, some, List, [], ◌∷◌, ◌++◌, if◌then◌else◌,
  ◌>>=◌, ◌⊎◌, inl, inr, ◌==◌, ◌||◌,
}
use data_structures.Queue.Interface.{Calls}
use data_structures.BinaryTree.{Tree, leaf, node, size, is_null, node_is_leaf}

-- the state at the end of a loop that never returns
abbrev pub at_end {κ} : {S : Type κ} → ⊥ ⊎ S → S
at_end (inl absurdity) = elim absurdity [ ]
at_end (inr s) = s

abbrev pub returned : Bool ⊎ Bool → Bool
returned (inl b) = b
returned (inr b) = b

module _ {ℓ} {A : Type ℓ} where
  -- NULL is dereferenced: `none`
  unfoldable pub perfect_below : Tree A → (tree_depth crt_depth : ℕ) → Option Bool
  perfect_below leaf tree_depth crt_depth = none
  perfect_below (node left x right) tree_depth crt_depth =
      let on_left = perfect_below left tree_depth (crt_depth + 1) in
      let on_right = perfect_below right tree_depth (crt_depth + 1) in
      if node_is_leaf (node left x right)
      then some (tree_depth == crt_depth)
      else if is_null left || is_null right
      then some false
      else (on_left >>= λ ok. if ok then on_right else some false)

  unfoldable pub print_data : List A → Tree A → A → Tree A → ⊥ ⊎ List A
  print_data out left x right = inr (out ++ x ∷ [])

  unfoldable pub half_data : ℕ → Bool → Tree A → A → Tree A → Bool ⊎ Bool
  half_data total found left x right =
      let part = size (node left x right) in if part == total - part then inl true else inr found

module _ {ℓ} {A Q : Type ℓ} (calls : Calls (Tree A) Q) where
  -- if (child) assert(!queue_enqueue(queue, child))
  unfoldable pub enqueue_child : Q → Tree A → Option Q
  enqueue_child queue leaf = some queue
  enqueue_child queue (node l x r) = calls.enqueue queue (node l x r)

  abbrev pub enqueue_children : Q → Tree A → Tree A → Option Q
  enqueue_children queue left right =
      enqueue_child queue left >>= λ queue'. enqueue_child queue' right

  -- The loop while the queue is not empty: `visit` is the body on the fields of the node at the
  -- front, before its children are enqueued; it returns from the function, or goes on.
  module _ {κ μ} {R : Type κ} {S : Type μ} (visit : S → Tree A → A → Tree A → R ⊎ S) where
    unfoldable pub on_visited :
        (Q → S → Option (R ⊎ S)) → Q → Tree A → Tree A → R ⊎ S → Option (R ⊎ S)
    on_visited rest queue left right (inl r) = some (inl r)
    on_visited rest queue left right (inr s) =
        enqueue_children queue left right >>= λ queue'. rest queue' s

    unfoldable pub on_front : (Q → S → Option (R ⊎ S)) → Q → Option (Tree A) → S → Option (R ⊎ S)
    unfolding on_visited
    on_front rest queue none s = none
    on_front rest queue (some leaf) s = none
    on_front rest queue (some (node left x right)) s =
        on_visited rest queue left right (visit s left x right)

    unfoldable pub level_loop : ℕ → Q → S → Option (R ⊎ S)
    unfolding on_front
    level_loop zero queue s = none
    level_loop (suc fuel) queue s =
        let (queue', crt) = calls.dequeue queue in
        let rest = level_loop fuel in
        if calls.is_empty queue then some (inr s) else on_front rest queue' crt s

  unfoldable pub level_order_print : (fuel : ℕ) (created : Option Q) → Tree A → Option (List A)
  unfolding print_data
  level_order_print fuel created leaf = some []
  level_order_print fuel none (node l x r) = some []
  level_order_print fuel (some queue) (node l x r) = calls.enqueue queue (node l x r) >>= λ queue'.
      level_loop print_data fuel queue' [] >>= λ out. some (at_end out)

  -- assert(crt), and then the children enter the queue
  unfoldable pub advance : Q × Option (Tree A) → Option Q
  advance (queue, none) = none
  advance (queue, some leaf) = none
  advance (queue, some (node left x right)) = enqueue_children queue left right

  -- The `for` loop of a level: `rounds` nodes leave the queue, and their children enter.
  unfoldable pub level_round : ℕ → Q → Option Q
  unfolding advance
  level_round zero queue = some queue
  level_round (suc rounds) queue =
      let rest = level_round rounds in advance (calls.dequeue queue) >>= λ queue'. rest queue'

  unfoldable pub depth_loop : ℕ → ℕ → Q → Option ℕ
  unfolding level_round
  depth_loop zero depth queue = none
  depth_loop (suc fuel) depth queue =
      let rest = depth_loop fuel (depth + 1) in
      if calls.is_empty queue
      then some depth
      else (level_round (calls.size queue) queue >>= λ queue'. rest queue')

  unfoldable pub depth_iterative : (fuel : ℕ) (created : Option Q) → Tree A → Option ℕ
  unfolding depth_loop
  depth_iterative fuel created leaf = some 0
  depth_iterative fuel none (node l x r) = none
  depth_iterative fuel (some queue) (node l x r) =
      calls.enqueue queue (node l x r) >>= λ queue'. depth_loop fuel 0 queue'

  unfoldable pub divide_two_halves : (fuel : ℕ) (created : Option Q) → Tree A → Option Bool
  unfolding half_data
  divide_two_halves fuel created leaf = some false
  divide_two_halves fuel none (node l x r) = none
  divide_two_halves fuel (some queue) (node l x r) = calls.enqueue queue (node l x r) >>= λ queue'.
      level_loop (half_data (size (node l x r))) fuel queue' false >>= λ out. some (returned out)

  unfoldable pub is_perfect : (fuel : ℕ) (created : Option Q) → Tree A → Option Bool
  unfolding depth_iterative perfect_below
  is_perfect fuel created leaf = some false
  is_perfect fuel created (node l x r) =
      depth_iterative fuel created (node l x r) >>= λ depth. perfect_below (node l x r) depth 1
