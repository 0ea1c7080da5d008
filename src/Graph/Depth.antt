-- ===== src/Graph/Depth.antt =====
-- `graph_dfs` in src/graph/graph.c, against reachability.
use data_structures.Prelude.{
  ℕ, ◌≤◌, ◌<◌, ◌≡◌, refl, ap, ◌∙◌, arith, true, false, Option, some, List, [], ltb, inl, inr,
  Bool-cases, ℤ, pos,
}
use data_structures.Graph.{Graph, State, dfs_from, dfs}
use data_structures.Graph.Reach.{Reach, here, onwards, one_if, printed, unvisited_bound}
use data_structures.Graph.Call.{Visited, Counted, dfs_from-Visited}

abbrev nothing : State
nothing = ((λ i. false), [])

reached_marked :
    (graph : Graph) (s i : ℕ) (answer : Option State) (v : Visited graph s nothing answer)
    → Reach graph s i
    → v.st'.0 i ≡ true
reached_marked graph s _ answer v (here q) = v.marked
reached_marked graph s _ answer v (onwards i j r e q) =
    v.closed i (reached_marked graph s i answer v r) refl j q e

-- The nodes that are printed, with the graph as it was but for the visited array.
pub record Searched (graph : Graph) (s : ℕ) (answer : Option (Option Graph × List ℕ × ℤ))
    : Type 0 where
  pub graph' : Graph
  pub out : List ℕ
  pub run : answer ≡ some (some graph', out, pos 0)
  pub once : (i : ℕ) → Reach graph s i → printed i out ≡ 1
  pub only : (i : ℕ) → 0 < printed i out → Reach graph s i
  pub same_edges : graph'.mat ≡ graph.mat

-- For a node of the graph, the calls of graph_dfs end, at most as deep as there are nodes, and
-- read nothing outside of the arrays; it returns 0 after printing exactly the nodes that the node
-- reaches, each once, and leaves the edges as they were.
pub graph_dfs_correct :
    (graph : Graph) (s fuel : ℕ)
    → s < graph.nodes
    → graph.nodes ≤ fuel
    → Searched graph s (dfs fuel (some graph) s)
unfolding dfs
graph_dfs_correct graph s fuel q enough =
    let all = unvisited_bound graph.nodes in
    let v = dfs_from-Visited fuel graph s nothing q refl (omega (arith, all)) in
    let inside : ltb s graph.nodes ≡ true = ground arith in
    let counts : Counted v.st' = v.counts (λ i. refl) in
    record {
      graph' = record { nodes = graph.nodes; mat = graph.mat; visited = v.st'.0 };
      out = v.st'.1;
      run = rw inside (rw v.run refl);
      once = λ i r.
          counts i ∙ ap one_if (reached_marked graph s i (dfs_from fuel graph s nothing) v r);
      only = λ i more. elim (Bool-cases (v.st'.0 i)) [
        | inl seen ↦ v.sound i seen refl
        | inr unseen ↦
            let never : printed i v.st'.1 ≡ 0 = counts i ∙ ap one_if unseen in
            absurd (omega (arith, never, more))
      ];
      same_edges = refl;
    }
