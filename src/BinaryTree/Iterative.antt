-- ===== src/BinaryTree/Iterative.antt =====
-- The traversals with stacks print what the recursive ones do.
use data_structures.Prelude.{
  ℕ, zero, suc, ◌+◌, ◌<◌, ◌≡◌, refl, ap, arith, sym, ◌∙◌, Option, some, List, [], ◌∷◌, ◌++◌, length,
  append_assoc, append-nil,
}
use data_structures.Stack.{Calls, IsStack}
use data_structures.BinaryTree.{Tree, leaf, node, size, pre_order_print, post_order_print}
use data_structures.BinaryTree.Levels.{
  solid, forest, IsSolid, append-IsSolid, solid-IsSolid, root_data, forest-append, forest-solid,
}
use data_structures.BinaryTree.Stacked.{
  push_child, pre_order_top, pre_order_loop, pre_order_iterative_print, post_order_top,
  post_order_fill, print_top, print_stack, post_order_iterative_print,
}

module _ {ℓ} {A S : Type ℓ} (calls : Calls (Tree A) S) (law : IsStack calls) where
  push_child_pushes :
      (s : S) (t : Tree A)
      → (s' : S) × (push_child calls s t ≡ some s') × (law.contents s' ≡ solid t ++ law.contents s)
  unfolding push_child
  push_child_pushes s leaf = (s, refl, refl)
  push_child_pushes s (node l x r) = law.pushed s (node l x r)

  abbrev pre_orders : List (Tree A) → List A
  pre_orders [] = []
  pre_orders (t ∷ ts) = pre_order_print t ++ pre_orders ts

  pre_orders-solid :
      (t : Tree A) (ts : List (Tree A))
      → pre_orders (solid t ++ ts) ≡ pre_order_print t ++ pre_orders ts
  pre_orders-solid leaf ts = refl
  pre_orders-solid (node l x r) ts = refl

  forest-solid_append :
      (t : Tree A) (ts : List (Tree A)) → forest (solid t ++ ts) ≡ size t + forest ts
  forest-solid_append t ts = omega (arith, forest-append (solid t) ts, forest-solid t)

  pre_order_loop-contents :
      (n : ℕ) (s : S) (ts : List (Tree A)) (out : List A)
      → law.contents s ≡ ts
      → IsSolid ts
      → forest ts < n
      → pre_order_loop calls n s out ≡ some (out ++ pre_orders ts)
  unfolding pre_order_loop pre_order_top
  pre_order_loop-contents zero s ts out e q h = absurd (omega arith)
  pre_order_loop-contents (suc n) s [] out e q h = rw (law.empty-contents s, e, append-nil out) refl
  pre_order_loop-contents (suc n) s (leaf ∷ ts) out e q h = elim q [ ]
  pre_order_loop-contents (suc n) s (node l x r ∷ ts) out e q h =
      let (s1, run1, c1) = law.popped s (node l x r) ts e in
      let (s2, run2, c2) = push_child_pushes s1 r in
      let (s3, run3, c3) = push_child_pushes s2 l in
      let now : law.contents s3 ≡ solid l ++ (solid r ++ ts) = c3 ∙ rw (c2, c1) refl in
      let solids =
        append-IsSolid (solid l) (solid r ++ ts) (solid-IsSolid l)
          (append-IsSolid (solid r) ts (solid-IsSolid r) q) in
      let fewer = forest-solid_append l (solid r ++ ts) in
      let fewer' = forest-solid_append r ts in
      let rest =
        pre_order_loop-contents n s3 (solid l ++ (solid r ++ ts)) (out ++ x ∷ []) now solids
          (omega arith) in
      rw (law.empty-contents s, e, run1, run2, run3, rest)
        (ap some (
          append_assoc out (x ∷ []) (pre_orders (solid l ++ (solid r ++ ts)))
          ∙ ap (λ ys. out ++ x ∷ ys)
              (pre_orders-solid l (solid r ++ ts)
                ∙ ap (λ ys. pre_order_print l ++ ys) (pre_orders-solid r ts)
                ∙ sym (append_assoc (pre_order_print l) (pre_order_print r) (pre_orders ts)))))

  -- With a stack that is empty and fuel for more rounds than there are nodes,
  -- binary_tree_pre_order_iterative_print prints what binary_tree_pre_order_print does.
  pub pre_order_iterative_correct :
      (n : ℕ) (t : Tree A) (s : S)
      → law.contents s ≡ []
      → size t < n
      → pre_order_iterative_print calls n (some s) t ≡ some (pre_order_print t)
  unfolding pre_order_iterative_print
  pre_order_iterative_correct n leaf s e h = refl
  pre_order_iterative_correct n (node l x r) s e h =
      let (s1, run, c) = law.pushed s (node l x r) in
      rw (run, pre_order_loop-contents n s1 (node l x r ∷ []) [] (c ∙ rw e refl) tt (omega arith))
        (ap some (append-nil (pre_order_print (node l x r))))

  abbrev post_orders : List (Tree A) → List A
  post_orders [] = []
  post_orders (t ∷ ts) = post_orders ts ++ post_order_print t

  post_orders-solid :
      (t : Tree A) (ts : List (Tree A))
      → post_orders (solid t ++ ts) ≡ post_orders ts ++ post_order_print t
  post_orders-solid leaf ts = sym (append-nil (post_orders ts))
  post_orders-solid (node l x r) ts = refl

  turned :
      (a b c : List A) (x : A) (w : List A)
      → ((a ++ b) ++ c) ++ x ∷ w ≡ (a ++ ((b ++ c) ++ x ∷ [])) ++ w
  turned a b c x w =
      append_assoc (a ++ b) c (x ∷ w)
      ∙ append_assoc a b (c ++ x ∷ w)
      ∙ sym (
          append_assoc a ((b ++ c) ++ x ∷ []) w
          ∙ ap (λ ys. a ++ ys) (append_assoc (b ++ c) (x ∷ []) w ∙ append_assoc b c (x ∷ w)))

  -- The second stack after the first loop: the nodes below `ts` over what was there.
  record Filled (ts us : List (Tree A)) (o : Option S) : Type ℓ where
    stack : S
    run : o ≡ some stack
    solid_nodes : IsSolid (law.contents stack)
    order : root_data (law.contents stack) ≡ post_orders ts ++ root_data us
    count : length (law.contents stack) ≡ forest ts + length us

  post_order_fill-contents :
      (n : ℕ) (s1 s2 : S) (ts us : List (Tree A))
      → law.contents s1 ≡ ts
      → law.contents s2 ≡ us
      → IsSolid ts
      → IsSolid us
      → forest ts < n
      → Filled ts us (post_order_fill calls n s1 s2)
  unfolding post_order_fill post_order_top
  post_order_fill-contents zero s1 s2 ts us e f q p h = absurd (omega arith)
  post_order_fill-contents (suc n) s1 s2 [] us e f q p h = record {
    stack = s2;
    run = rw (law.empty-contents s1, e) refl;
    solid_nodes = rw f p;
    order = rw f refl;
    count = rw f (omega arith);
  }
  post_order_fill-contents (suc n) s1 s2 (leaf ∷ ts) us e f q p h = elim q [ ]
  post_order_fill-contents (suc n) s1 s2 (node l x r ∷ ts) us e f q p h =
      let (s1', run1, c1) = law.popped s1 (node l x r) ts e in
      let (s2', run2, c2) = law.pushed s2 (node l x r) in
      let (s3, run3, c3) = push_child_pushes s1' l in
      let (s4, run4, c4) = push_child_pushes s3 r in
      let now : law.contents s4 ≡ solid r ++ (solid l ++ ts) = c4 ∙ rw (c3, c1) refl in
      let then_there : law.contents s2' ≡ node l x r ∷ us = c2 ∙ rw f refl in
      let solids =
        append-IsSolid (solid r) (solid l ++ ts) (solid-IsSolid r)
          (append-IsSolid (solid l) ts (solid-IsSolid l) q) in
      let fewer = forest-solid_append r (solid l ++ ts) in
      let fewer' = forest-solid_append l ts in
      let rest =
        post_order_fill-contents n s4 s2' (solid r ++ (solid l ++ ts)) (node l x r ∷ us) now
          then_there solids p (omega arith) in
      record {
        stack = rest.stack;
        run = rw (law.empty-contents s1, e, run1, run2, run3, run4) rest.run;
        solid_nodes = rest.solid_nodes;
        order =
            rest.order
            ∙ rw (post_orders-solid r (solid l ++ ts), post_orders-solid l ts)
                (turned (post_orders ts) (post_order_print l) (post_order_print r) x
                  (root_data us));
        count = omega (arith, rest.count);
      }

  print_stack-contents :
      (n : ℕ) (s : S) (ts : List (Tree A)) (out : List A)
      → law.contents s ≡ ts
      → IsSolid ts
      → length ts < n
      → print_stack calls n s out ≡ some (out ++ root_data ts)
  unfolding print_stack print_top
  print_stack-contents zero s ts out e q h = absurd (omega arith)
  print_stack-contents (suc n) s [] out e q h = rw (law.empty-contents s, e, append-nil out) refl
  print_stack-contents (suc n) s (leaf ∷ ts) out e q h = elim q [ ]
  print_stack-contents (suc n) s (node l x r ∷ ts) out e q h =
      let (s', run, c) = law.popped s (node l x r) ts e in
      rw (law.empty-contents s, e, run)
        (print_stack-contents n s' ts (out ++ x ∷ []) c q (omega arith)
          ∙ ap some (append_assoc out (x ∷ []) (root_data ts)))

  -- With two stacks that are empty and fuel for more rounds than there are nodes,
  -- binary_tree_post_order_iterative_print prints what binary_tree_post_order_print does.
  pub post_order_iterative_correct :
      (n : ℕ) (t : Tree A) (s1 s2 : S)
      → law.contents s1 ≡ []
      → law.contents s2 ≡ []
      → size t < n
      → post_order_iterative_print calls n (some s1) (some s2) t ≡ some (post_order_print t)
  unfolding post_order_iterative_print
  post_order_iterative_correct n leaf s1 s2 e f h = refl
  post_order_iterative_correct n (node l x r) s1 s2 e f h =
      let (s1', run, c) = law.pushed s1 (node l x r) in
      let full =
        post_order_fill-contents n s1' s2 (node l x r ∷ []) [] (c ∙ rw e refl) f tt tt
          (omega arith) in
      rw
        (
          run,
          full.run,
          print_stack-contents n full.stack (law.contents full.stack) [] refl full.solid_nodes
              (omega (arith, full.count)),
          full.order,
        )
        (ap some (append-nil (post_order_print (node l x r))))
