-- ===== src/Graph/Breadth.antt =====
-- `graph_bfs` in src/graph/graph.c, as a client of the queue. An element of the queue is the node
-- that `nodes[i]` holds, which is `i`.
use data_structures.Prelude.{
  ℕ, zero, suc, Bool, true, false, not, ◌&&◌, Option, none, some, List, [], ◌∷◌, ◌++◌,
  if◌then◌else◌, ltb, ◌==◌, ◌>>=◌, ℤ, pos, negsuc,
}
use data_structures.Queue.Interface.{Calls}
use data_structures.Graph.{Graph, has_edge}

-- `graph->visited[i] = 1`
abbrev pub mark : ℕ → (ℕ → Bool) → ℕ → Bool
mark s visited i = if i == s then true else visited i

module _ {Q : Type 0} (calls : Calls ℕ Q) where
  abbrev pub enqueue_marked : ℕ → (ℕ → Bool) → Q → Option ((ℕ → Bool) × Q)
  enqueue_marked i visited queue = calls.enqueue queue i >>= λ queue'. some (mark i visited, queue')

  -- the loop over the neighbours below `k`; `none` when an element is refused
  unfoldable pub scan : ℕ → (ℕ → Bool) → (ℕ → Bool) → Q → Option ((ℕ → Bool) × Q)
  scan zero edge visited queue = some (visited, queue)
  scan (suc k) edge visited queue = scan k edge visited queue >>= λ st.
      if edge k && not (st.0 k) then enqueue_marked k st.0 st.1 else some st

  -- what follows a loop over the neighbours
  abbrev after_scan :
      ((ℕ → Bool) → Q → Option (List ℕ × ℤ))
      → List ℕ
      → Option ((ℕ → Bool) × Q)
      → Option (List ℕ × ℤ)
  after_scan next out none = some (out, negsuc 5)
  after_scan next out (some (visited, queue)) = next visited queue

  abbrev on_front :
      Graph
      → ((ℕ → Bool) → Q → List ℕ → Option (List ℕ × ℤ))
      → (ℕ → Bool)
      → List ℕ
      → Q × Option ℕ
      → Option (List ℕ × ℤ)
  on_front graph next visited out (queue, none) = some (out, negsuc 4)
  on_front graph next visited out (queue, some curr) =
      if ltb curr graph.nodes
      then after_scan (λ visited' queue'. next visited' queue' (out ++ curr ∷ []))
          (out ++ curr ∷ []) (scan graph.nodes (has_edge graph curr) visited queue)
      else none

  -- the loop while the queue is not empty; `none` when the fuel is out
  unfoldable pub bfs_loop : ℕ → Graph → (ℕ → Bool) → Q → List ℕ → Option (List ℕ × ℤ)
  unfolding scan
  bfs_loop zero graph visited queue out = none
  bfs_loop (suc fuel) graph visited queue out =
      let rest = on_front graph (bfs_loop fuel graph) visited out (calls.dequeue queue) in
      if calls.is_empty queue then some (out, pos 0) else rest

  abbrev from_source : ℕ → Graph → (ℕ → Bool) → Option Q → Option (List ℕ × ℤ)
  from_source fuel graph visited none = some ([], negsuc 3)
  from_source fuel graph visited (some queue) = bfs_loop fuel graph visited queue []

  abbrev with_queue : ℕ → Graph → ℕ → Option Q → Option (List ℕ × ℤ)
  with_queue fuel graph s none = some ([], negsuc 2)
  with_queue fuel graph s (some queue) =
      from_source fuel graph (mark s (λ i. false)) (calls.enqueue queue s)

  -- The nodes that are printed and the result. `allocated` is whether the nodes can be, and `queue`
  -- is what queue_create returned.
  unfoldable pub bfs : ℕ → Bool → Option Q → Option Graph → ℕ → Option (List ℕ × ℤ)
  unfolding bfs_loop
  bfs fuel allocated queue none s = some ([], negsuc 0)
  bfs fuel allocated queue (some graph) s =
      if not (ltb s graph.nodes)
      then some ([], negsuc 0)
      else if allocated
      then with_queue fuel graph s queue
      else some ([], negsuc 1)
