-- ===== src/BinaryTree/Walk.antt =====
-- The loop over a queue of nodes visits the nodes level by level, while the queue has room.
use data_structures.Prelude.{
  ℕ, zero, suc, ◌+◌, ◌-◌, ◌≤◌, ◌<◌, ◌≡◌, refl, ap, arith, sym, ◌∙◌, false, Option, some, List, [],
  ◌∷◌, ◌++◌, ◌⊎◌, inl, inr, ◌==◌, length, length-append, append_assoc, append-nil,
}
use data_structures.Queue.Interface.{Calls, IsQueue}
use data_structures.BinaryTree.{Tree, leaf, node, size, depth_recursive}
use data_structures.BinaryTree.Levels.{
  solid, children, lined, forest, IsSolid, levels, level_order, root_data, append-IsSolid,
  children-IsSolid, forest-append, forest-children, lined-level_order, length-solid,
}
use data_structures.BinaryTree.Queued.{
  enqueue_child, enqueue_children, on_visited, on_front, level_loop, level_order_print, at_end,
  print_data,
}

-- a body of the loop, run on the nodes of a list
module _ {ℓ κ μ} {A : Type ℓ} {R : Type κ} {S : Type μ}
    (visit : S → Tree A → A → Tree A → R ⊎ S) where
  abbrev pub visit_all : List (Tree A) → S → R ⊎ S
  visit_all [] s = inr s
  visit_all (leaf ∷ ts) s = visit_all ts s
  visit_all (node l x r ∷ ts) s = elim (visit s l x r) [
    | inl out ↦ inl out
    | inr s' ↦ visit_all ts s'
  ]

module _ {ℓ} {A : Type ℓ} where
  print-visit_all :
      (ts : List (Tree A)) (out : List A)
      → at_end (visit_all (print_data) ts out) ≡ out ++ root_data ts
  unfolding print_data
  print-visit_all [] out = sym (append-nil out)
  print-visit_all (leaf ∷ ts) out = print-visit_all ts out
  print-visit_all (node l x r ∷ ts) out =
      print-visit_all ts (out ++ x ∷ []) ∙ append_assoc out (x ∷ []) (root_data ts)

module _ {ℓ} {A Q : Type ℓ} (calls : Calls (Tree A) Q) (law : IsQueue calls) where
  -- The queue holds the nodes `ts`, and the room is enough for all that lies below them.
  pub record Lined (ts : List (Tree A)) (queue : Q) : Type ℓ where
    pub good : law.Good queue
    pub nodes : IsSolid ts
    pub line : (law.lane queue).waiting ≡ ts
    pub room : forest ts ≤ (law.lane queue).room + length ts

  pub record Entered (ts : List (Tree A)) (n : ℕ) (q : Option Q) : Type ℓ where
    pub queue : Q
    pub run : q ≡ some queue
    pub good : law.Good queue
    pub line : (law.lane queue).waiting ≡ ts
    pub room : (law.lane queue).room ≡ n

  enqueue_child_enters :
      (queue : Q) (t : Tree A)
      → law.Good queue
      → length (solid t) ≤ (law.lane queue).room
      → Entered
          ((law.lane queue).waiting ++ solid t)
          ((law.lane queue).room - length (solid t))
          (enqueue_child calls queue t)
  unfolding enqueue_child
  enqueue_child_enters queue leaf g h = record {
    queue = queue;
    run = refl;
    good = g;
    line = sym (append-nil _);
    room = omega arith;
  }
  enqueue_child_enters queue (node l x r) g h =
      let (queue', run, good, lane) =
        law.enqueued queue (node l x r) ((law.lane queue).room - 1) g (omega arith) in
      record {
        queue = queue';
        run = run;
        good = good;
        line = ap (λ l. l.waiting) lane;
        room = ap (λ l. l.room) lane;
      }

  pub enqueue_children_enter :
      (queue : Q) (l : Tree A) (x : A) (r : Tree A)
      → law.Good queue
      → length (children (node l x r)) ≤ (law.lane queue).room
      → Entered
          ((law.lane queue).waiting ++ children (node l x r))
          ((law.lane queue).room - length (children (node l x r)))
          (enqueue_children calls queue l r)
  enqueue_children_enter queue l x r g h =
      let count = length-append (solid l) (solid r) in
      let first = enqueue_child_enters queue l g (omega arith) in
      let second = enqueue_child_enters first.queue r first.good (omega (arith, first.room)) in
      record {
        queue = second.queue;
        run = rw (first.run) second.run;
        good = second.good;
        line = second.line ∙ rw (first.line) (append_assoc _ (solid l) (solid r));
        room = omega (arith, first.room, second.room);
      }

  -- A node that leaves the queue makes place for its children.
  pub Lined-step :
      (queue queue' : Q) (l : Tree A) (x : A) (r : Tree A) (ts : List (Tree A))
      → Lined (node l x r ∷ ts) queue
      → law.Good queue'
      → (law.lane queue').waiting ≡ ts
      → (law.lane queue').room ≡ (law.lane queue).room
      → (queue'' : Q) × (enqueue_children calls queue' l r ≡ some queue'')
        × Lined (ts ++ children (node l x r)) queue''
  Lined-step queue queue' l x r ts h g line room =
      let below = forest-children l x r in
      let more = length-solid (children (node l x r)) (children-IsSolid (node l x r)) in
      let all = forest-append ts (children (node l x r)) in
      let count = length-append ts (children (node l x r)) in
      let old = h.room in
      let enough = length-solid ts h.nodes in
      let next = enqueue_children_enter queue' l x r g (omega arith) in
      (
        next.queue,
        next.run,
        record {
          good = next.good;
          nodes = append-IsSolid ts (children (node l x r)) h.nodes (children-IsSolid (node l x r));
          line = next.line ∙ rw line refl;
          room = omega (arith, next.room);
        },
      )

  -- The root enters a queue that is empty and has room for the whole tree.
  pub Lined-root :
      (l : Tree A) (x : A) (r : Tree A) (queue : Q)
      → law.Good queue
      → (law.lane queue).waiting ≡ []
      → size (node l x r) ≤ (law.lane queue).room
      → (queue' : Q) × (calls.enqueue queue (node l x r) ≡ some queue')
        × Lined (node l x r ∷ []) queue'
  Lined-root l x r queue g e room =
      let (queue', run, good, lane) =
        law.enqueued queue (node l x r) ((law.lane queue).room - 1) g (omega arith) in
      let left = ap (λ l. l.room) lane in
      (
        queue',
        run,
        record {
          good = good;
          nodes = tt;
          line = ap (λ l. l.waiting) lane ∙ rw e refl;
          room = omega arith;
        },
      )

  module _ {κ μ} {R : Type κ} {S : Type μ} (visit : S → Tree A → A → Tree A → R ⊎ S) where
    -- With fuel for all nodes, the loop gives what the body gives on the nodes in line.
    pub level_loop-lined :
        (n : ℕ) (queue : Q) (ts : List (Tree A)) (s : S)
        → Lined ts queue
        → forest ts < n
        → level_loop calls visit n queue s ≡ some (visit_all visit (lined n ts) s)
    unfolding level_loop on_front on_visited
    level_loop-lined zero queue ts s h f = absurd (omega arith)
    level_loop-lined (suc n) queue [] s h f = rw (law.empty-waiting queue h.good, h.line) refl
    level_loop-lined (suc n) queue (leaf ∷ ts) s h f = elim h.nodes [ ]
    level_loop-lined (suc n) queue (node l x r ∷ ts) s h f =
        let (queue', run, good, lane) = law.dequeued queue (node l x r) ts h.good h.line in
        let below = forest-children l x r in
        let all = forest-append ts (children (node l x r)) in
        let (queue'', run', next) =
          Lined-step queue queue' l x r ts h good (ap (λ l. l.waiting) lane)
            (ap (λ l. l.room) lane) in
        let more : (suc (length ts) == 0) ≡ false = ground arith in
        rw (law.empty-waiting queue h.good, h.line, run, more)
          (elim (visit s l x r)
            as (λ v.
              on_visited calls visit (level_loop calls visit n) queue' l r v
              ≡ some (elim v [
                | inl out ↦ inl out
                | inr s' ↦ visit_all visit (lined n (ts ++ children (node l x r))) s'
              ])) [
                | inl out ↦ refl
                | inr s' ↦
                    rw run' (
                      level_loop-lined n queue'' (ts ++ children (node l x r)) s' next
                        (omega arith))
              ])

    pub loop-level_order :
        (n : ℕ) (l : Tree A) (x : A) (r : Tree A) (queue : Q) (s : S)
        → Lined (node l x r ∷ []) queue
        → size (node l x r) < n
        → level_loop calls visit n queue s
          ≡ some (visit_all visit (levels 0 (depth_recursive (node l x r)) (node l x r)) s)
    loop-level_order n l x r queue s h f =
        level_loop-lined n queue (node l x r ∷ []) s h (omega arith)
        ∙ ap (λ ts. some (visit_all visit ts s)) (lined-level_order n (node l x r) (omega arith))

  -- With a queue that is empty and has room for all nodes, and with fuel for more rounds than
  -- there are nodes, binary_tree_level_order_print prints the data level by level, from left to
  -- right.
  pub level_order_print_correct :
      (n : ℕ) (t : Tree A) (queue : Q)
      → law.Good queue
      → (law.lane queue).waiting ≡ []
      → size t ≤ (law.lane queue).room
      → size t < n
      → level_order_print calls n (some queue) t ≡ some (level_order t)
  unfolding level_order_print
  level_order_print_correct n leaf queue g e room f = refl
  level_order_print_correct n (node l x r) queue g e room f =
      let (queue', run, first) = Lined-root l x r queue g e room in
      rw (run, loop-level_order (print_data) n l x r queue' [] first f)
        (ap some (print-visit_all (levels 0 (depth_recursive (node l x r)) (node l x r)) []))
