-- ===== src/Graph.antt =====
-- src/graph/graph.c and include/graph/graph.h: the edges and the traversals in depth and, in
-- `Graph.Breadth`, in breadth. The arrays are functions of the index; `none` as a result is a read
-- outside of them, or that the fuel is out.
pub mod Reach
pub mod Call
pub mod Depth
pub mod Breadth
pub mod Waiting
pub mod Layers
mod Tests
use data_structures.Prelude.{
  ℕ, zero, suc, ◌+◌, Bool, true, false, not, ◌&&◌, ◌||◌, Option, none, some, List, [], ◌∷◌, ◌++◌,
  if◌then◌else◌, ltb, ◌==◌, ◌>>=◌, ℤ, pos, negsuc, is_zero,
}

abbrev pub max_nodes : ℕ
max_nodes = 50

-- `graph_t`; a weight is 0 where there is no edge.
pub record Graph : Type 0 where
  pub nodes : ℕ
  pub mat : ℕ → ℕ → ℤ
  pub visited : ℕ → Bool

-- `graph_create`; `allocated` is whether all the calls of malloc and calloc succeed.
unfoldable pub create : (allocated : Bool) → ℕ → Option Graph
create allocated nodes =
    if ltb max_nodes nodes
    then none
    else if allocated
    then some (record { nodes = nodes; mat = λ s d. pos 0; visited = λ i. false })
    else none

-- `graph->mat[s][d] = w`
abbrev pub set_weight : Graph → ℕ → ℕ → ℤ → Graph
set_weight graph s d w = record {
  nodes = graph.nodes;
  mat = λ i j. if i == s && j == d then w else graph.mat i j;
  visited = graph.visited;
}

unfoldable pub add_directed_wedge : Graph → ℕ → ℕ → ℤ → Graph × ℤ
add_directed_wedge graph s d w =
    if not (ltb s graph.nodes) || not (ltb d graph.nodes)
    then (graph, negsuc 0)
    else (set_weight graph s d w, pos 0)

unfoldable pub add_undirected_wedge : Graph → ℕ → ℕ → ℤ → Graph × ℤ
add_undirected_wedge graph s d w =
    if not (ltb s graph.nodes) || not (ltb d graph.nodes)
    then (graph, negsuc 0)
    else (set_weight (set_weight graph s d w) d s w, pos 0)

unfoldable pub add_directed_edge : Graph → ℕ → ℕ → Graph × ℤ
unfolding add_directed_wedge
add_directed_edge graph s d = add_directed_wedge graph s d (pos 1)

unfoldable pub add_undirected_edge : Graph → ℕ → ℕ → Graph × ℤ
unfolding add_undirected_wedge
add_undirected_edge graph s d = add_undirected_wedge graph s d (pos 1)

-- the visited array, and the nodes that were printed
abbrev pub State : Type 0
State = (ℕ → Bool) × List ℕ

abbrev pub visit : ℕ → State → State
visit s (visited, out) = ((λ i. if i == s then true else visited i), out ++ s ∷ [])

abbrev pub has_edge : Graph → ℕ → ℕ → Bool
has_edge graph s i = not (is_zero (graph.mat s i))

-- the loop of `__graph_dfs` over the nodes below `k`
unfoldable pub each_node : ℕ → (ℕ → Bool) → (ℕ → State → Option State) → State → Option State
each_node zero edge call st = some st
each_node (suc k) edge call st =
    each_node k edge call st >>= λ st'. if edge k && not (st'.0 k) then call k st' else some st'

unfoldable pub dfs_from : ℕ → Graph → ℕ → State → Option State
dfs_from zero graph s st = none
dfs_from (suc fuel) graph s st =
    let rest = each_node graph.nodes (has_edge graph s) (dfs_from fuel graph) (visit s st) in
    if ltb s graph.nodes then rest else none

-- The graph, the nodes that are printed, and the result; the fuel is for the depth of the calls.
unfoldable pub dfs : ℕ → Option Graph → ℕ → Option (Option Graph × List ℕ × ℤ)
unfolding dfs_from
dfs fuel none s = some (none, [], negsuc 0)
dfs fuel (some graph) s =
    let rest = dfs_from fuel graph s ((λ i. false), []) in
    if not (ltb s graph.nodes)
    then some (some graph, [], negsuc 0)
    else (rest >>= λ st.
        some (some (record { nodes = graph.nodes; mat = graph.mat; visited = st.0 }), st.1, pos 0))
