-- ===== src/Graph/Tests.antt =====
-- Runs on a small graph, and the theorems at it.
use data_structures.Prelude.{
  ℕ, ◌≡◌, refl, arith, true, ◌&&◌, Option, none, some, List, [], ◌∷◌, if◌then◌else◌, ◌==◌, ℤ, pos,
  negsuc,
}
use data_structures.Graph.{Graph, each_node, dfs, add_undirected_edge}
use data_structures.Queue.{create, enqueue, dequeue, is_empty}
use data_structures.Queue.Interface
use data_structures.Graph.Breadth.{bfs}
use data_structures.Graph.Layers.{Spread, graph_bfs_on_queue}
use data_structures.Graph.Depth.{Searched, graph_dfs_correct}

-- four nodes, with edges from 0 to 2, from 2 to 1 and from 1 to 0
abbrev sample : Graph
sample = record {
  nodes = 4;
  mat = λ s d.
      if s == 0 && d == 2
      then pos 1
      else if s == 2 && d == 1
      then pos 1
      else if s == 1 && d == 0
      then negsuc 2
      else pos 0;
  visited = λ i. true;
}

abbrev printed_by : Option (Option Graph × List ℕ × ℤ) → List ℕ
printed_by none = []
printed_by (some (graph, out, status)) = out

dfs-sample : printed_by (dfs 4 (some sample) 0) ≡ 0 ∷ 2 ∷ 1 ∷ []
unfolding dfs each_node
dfs-sample = refl

-- An edge that leaves the graph is refused.
add-outside : add_undirected_edge sample 0 4 ≡ (sample, negsuc 0)
unfolding add_undirected_edge
add-outside = refl

graph_dfs_correct_example : Searched sample 0 (dfs 4 (some sample) 0)
graph_dfs_correct_example = graph_dfs_correct sample 0 4 (omega arith) (omega arith)

bfs-sample :
    bfs Interface.calls 6 true (some (create true (some (9 ∷ 9 ∷ 9 ∷ 9 ∷ [])) 4)) (some sample) 0
    ≡ some (0 ∷ 2 ∷ 1 ∷ [], pos 0)
unfolding bfs create enqueue dequeue is_empty
bfs-sample = refl

graph_bfs_on_queue_example :
    Spread sample 0 (
      bfs Interface.calls 6 true (some (create true (some (9 ∷ 9 ∷ 9 ∷ 9 ∷ [])) 4)) (some sample) 0)
graph_bfs_on_queue_example =
    graph_bfs_on_queue sample 0 6 (9 ∷ 9 ∷ 9 ∷ 9 ∷ []) (omega arith) (omega arith) refl
      (omega arith)
