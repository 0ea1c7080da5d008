-- ===== src/BinaryTree/Depth.antt =====
-- `binary_tree_depth_iterative` counts the levels, and what stands on it.
use data_structures.Prelude.{
  ℕ, zero, suc, ◌+◌, ◌≤◌, ◌<◌, ◌≡◌, refl, ap, arith, false, some, List, [], ◌∷◌, ◌++◌, ◌==◌, length,
  append_assoc, append-nil,
}
use data_structures.Queue.Interface.{Calls, IsQueue}
use data_structures.BinaryTree.{Tree, leaf, node, size, depth_recursive}
use data_structures.BinaryTree.Levels.{
  children, grand, level, level-deep, level-shallow, grand-level,
}
use data_structures.BinaryTree.Queued.{advance, level_round, depth_loop, depth_iterative}
use data_structures.BinaryTree.Walk.{Lined, Lined-step, Lined-root}

module _ {ℓ} {A Q : Type ℓ} (calls : Calls (Tree A) Q) (law : IsQueue calls) where
  level_round-Lined :
      (ts us : List (Tree A)) (queue : Q)
      → Lined calls law (ts ++ us) queue
      → (queue' : Q) × (level_round calls (length ts) queue ≡ some queue')
        × Lined calls law (us ++ grand ts) queue'
  unfolding level_round advance
  level_round-Lined [] us queue h = (queue, refl, rw (append-nil us) h)
  level_round-Lined (leaf ∷ ts) us queue h = elim h.nodes [ ]
  level_round-Lined (node l x r ∷ ts) us queue h =
      let (queue', run, good, lane) = law.dequeued queue (node l x r) (ts ++ us) h.good h.line in
      let (queue'', run', next) =
        Lined-step calls law queue queue' l x r (ts ++ us) h good (ap (λ l. l.waiting) lane)
          (ap (λ l. l.room) lane) in
      let (last, run'', end) =
        level_round-Lined ts (us ++ children (node l x r)) queue''
          (rw (← append_assoc ts us (children (node l x r))) next) in
      rw (run, run', run'')
        (last, refl, rw (← append_assoc us (children (node l x r)) (grand ts)) end)

  depth_loop-level :
      (d k n : ℕ) (t : Tree A) (queue : Q)
      → Lined calls law (level k t) queue
      → depth_recursive t ≡ k + d
      → d < n
      → depth_loop calls n k queue ≡ some (depth_recursive t)
  unfolding depth_loop
  depth_loop-level d k zero t queue h e f = absurd (omega arith)
  depth_loop-level zero k (suc n) t queue h e f =
      let deep = level-deep k t (omega arith) in
      let all : depth_recursive t ≡ k = omega arith in
      rw (law.empty-waiting queue h.good, h.line, deep, all) refl
  depth_loop-level (suc d) k (suc n) t queue h e f =
      let some_node = level-shallow k t (omega arith) in
      let more : (length (level k t) == 0) ≡ false = ground arith in
      let (queue', run, next) =
        level_round-Lined (level k t) [] queue (rw (append-nil (level k t)) h) in
      let rest =
        depth_loop-level d (suc k) n t queue' (rw (← grand-level k t) next) (omega arith)
          (omega arith) in
      let one : k + 1 ≡ suc k = omega arith in
      rw (law.empty-waiting queue h.good, law.size-waiting queue h.good, h.line, more, run, one)
        rest

  -- With a queue that is empty and has room for all nodes, and with more fuel than the tree is
  -- deep, binary_tree_depth_iterative returns what binary_tree_depth_recursive does.
  pub depth_iterative_correct :
      (n : ℕ) (t : Tree A) (queue : Q)
      → law.Good queue
      → (law.lane queue).waiting ≡ []
      → size t ≤ (law.lane queue).room
      → depth_recursive t < n
      → depth_iterative calls n (some queue) t ≡ some (depth_recursive t)
  unfolding depth_iterative
  depth_iterative_correct n leaf queue g e r f = refl
  depth_iterative_correct n (node l x r) queue g e room f =
      let (queue', run, first) = Lined-root calls law l x r queue g e room in
      rw run (
        depth_loop-level (depth_recursive (node l x r)) 0 n (node l x r) queue' first (omega arith)
          f)
