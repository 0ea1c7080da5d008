-- ===== src/Graph/Call.antt =====
-- `__graph_dfs` in src/graph/graph.c: what one call visits and prints.
use data_structures.Prelude.{
  ℕ, zero, suc, ◌≤◌, ◌<◌, ◌≡◌, refl, ap, ◌∙◌, arith, Bool, true, false, Option, some, [], ◌∷◌, ltb,
  ◌==◌, ==_iff, inl, inr, Bool-cases,
}
use data_structures.Graph.{Graph, has_edge, State, visit, each_node, dfs_from}
use data_structures.Graph.Reach.{
  Reach, here, Reach-first, one_if, printed, printed-append, unvisited, Within, unvisited-Within,
  visit-Within, unvisited-visit,
}

-- Each visited node was printed once, and no other.
abbrev pub Counted : State → Type 0
Counted st = (i : ℕ) → printed i st.1 ≡ one_if (st.0 i)

-- The neighbours of a node that is visited on the way are visited.
abbrev pub Closed : Graph → (ℕ → Bool) → (ℕ → Bool) → Type 0
Closed graph v w =
    (i : ℕ)
    → w i ≡ true
    → v i ≡ false
    → (j : ℕ) → j < graph.nodes
    → has_edge graph i j ≡ true
    → w j ≡ true

-- a call for the node `s`
pub record Visited (graph : Graph) (s : ℕ) (st : State) (answer : Option State) : Type 0 where
  pub st' : State
  pub run : answer ≡ some st'
  pub within : Within st.0 st'.0
  pub marked : st'.0 s ≡ true
  pub closed : Closed graph st.0 st'.0
  pub sound : (i : ℕ) → st'.0 i ≡ true → st.0 i ≡ false → Reach graph s i
  pub counts : Counted st → Counted st'

-- the loop of such a call, up to the node `k`
record Looped (graph : Graph) (s k : ℕ) (st : State) (answer : Option State) : Type 0 where
  st' : State
  run : answer ≡ some st'
  within : Within st.0 st'.0
  edges : (j : ℕ) → j < k → has_edge graph s j ≡ true → st'.0 j ≡ true
  closed : Closed graph st.0 st'.0
  sound : (i : ℕ) → st'.0 i ≡ true → st.0 i ≡ false → Reach graph s i
  counts : Counted st → Counted st'

pub one_more :
    (k : ℕ) (edge w : ℕ → Bool)
    → ((j : ℕ) → j < k → edge j ≡ true → w j ≡ true)
    → (edge k ≡ true → w k ≡ true)
    → (j : ℕ) → j < suc k
    → edge j ≡ true
    → w j ≡ true
one_more k edge w h last j q e = elim (Bool-cases (j == k)) [
  | inl same ↦ let is : j ≡ k = (==_iff j k).0 same in rw is (last (rw is at e))
  | inr other ↦ h j (ground arith) e
]

each_node-Looped :
    (graph : Graph) (s : ℕ) (call : ℕ → State → Option State) (st : State)
    → s < graph.nodes
    → ((i : ℕ) (st2 : State)
        → i < graph.nodes
        → Within st.0 st2.0
        → st2.0 i ≡ false
        → Visited graph i st2 (call i st2))
    → (k : ℕ) → k ≤ graph.nodes
    → Looped graph s k st (each_node k (has_edge graph s) call st)
unfolding each_node
each_node-Looped graph s call st q h zero p = record {
  st' = st;
  run = refl;
  within = λ i e. e;
  edges = λ j r. absurd (omega arith);
  closed = λ i seen new. cc (seen, new);
  sound = λ i seen new. cc (seen, new);
  counts = λ c. c;
}
each_node-Looped graph s call st q h (suc k) p =
    let before = each_node-Looped graph s call st q h k (omega arith) in
    elim (Bool-cases (has_edge graph s k)) [
      | inr no_edge ↦ record {
        st' = before.st';
        run = rw (before.run, no_edge) refl;
        within = before.within;
        edges = one_more k (has_edge graph s) before.st'.0 before.edges (λ e. cc (no_edge, e));
        closed = before.closed;
        sound = before.sound;
        counts = before.counts;
      }
      | inl edge ↦ elim (Bool-cases (before.st'.0 k)) [
        | inl seen ↦ record {
          st' = before.st';
          run = rw (before.run, edge) (rw seen refl);
          within = before.within;
          edges = one_more k (has_edge graph s) before.st'.0 before.edges (λ e. seen);
          closed = before.closed;
          sound = before.sound;
          counts = before.counts;
        }
        | inr new ↦
            let v = h k before.st' (omega arith) before.within new in
            record {
              st' = v.st';
              run = rw (before.run, edge) (rw new v.run);
              within = λ i e. v.within i (before.within i e);
              edges =
                  one_more k (has_edge graph s) v.st'.0 (λ j r e. v.within j (before.edges j r e))
                    (λ e. v.marked);
              closed = λ i seen unseen j r e. elim (Bool-cases (before.st'.0 i)) [
                | inl early ↦ v.within j (before.closed i early unseen j r e)
                | inr late ↦ v.closed i seen late j r e
              ];
              sound = λ i seen unseen. elim (Bool-cases (before.st'.0 i)) [
                | inl early ↦ before.sound i early unseen
                | inr late ↦ Reach-first graph s k i q edge (v.sound i seen late)
              ];
              counts = λ c. v.counts (before.counts c);
            }
      ]
    ]

visit-Counted : (s : ℕ) (st : State) → st.0 s ≡ false → Counted st → Counted (visit s st)
visit-Counted s st new c i =
    let before = c i in
    let more = printed-append i st.1 (s ∷ []) in
    elim (Bool-cases (i == s)) [
      | inl e ↦
          let same : i ≡ s = (==_iff i s).0 e in
          let none_yet : st.0 i ≡ false = ap st.0 same ∙ new in
          let zero_times : printed i st.1 ≡ 0 = before ∙ ap one_if none_yet in
          more ∙ (rw e (omega (arith, zero_times)))
      | inr e ↦ more ∙ (rw e (omega (arith, before)))
    ]

-- A call with fuel for the nodes that are not visited yet visits exactly what it can reach among
-- them.
pub dfs_from-Visited :
    (fuel : ℕ) (graph : Graph) (s : ℕ) (st : State)
    → s < graph.nodes
    → st.0 s ≡ false
    → unvisited graph.nodes st.0 ≤ fuel
    → Visited graph s st (dfs_from fuel graph s st)
unfolding dfs_from
dfs_from-Visited zero graph s st q new enough =
    let less = unvisited-visit graph.nodes s st q new in absurd (omega (arith, less))
dfs_from-Visited (suc fuel) graph s st q new enough =
    let inside : ltb s graph.nodes ≡ true = ground arith in
    let less = unvisited-visit graph.nodes s st q new in
    let self : (s == s) ≡ true = ground arith in
    let at_s : (visit s st).0 s ≡ true = rw self refl in
    let loop =
      each_node-Looped graph s (dfs_from fuel graph) (visit s st) q
        (λ i st2 p within new2.
          let fewer = unvisited-Within graph.nodes (visit s st).0 st2.0 within in
          dfs_from-Visited fuel graph i st2 p new2 (omega (arith, fewer, less)))
        graph.nodes (omega arith) in
    record {
      st' = loop.st';
      run = rw inside loop.run;
      within = λ i e. loop.within i (visit-Within s st i e);
      marked = loop.within s at_s;
      closed = λ i seen unseen j r e. elim (Bool-cases (i == s)) [
        | inl same ↦ loop.edges j r (rw ((==_iff i s).0 same) at e)
        | inr other ↦ loop.closed i seen (rw other unseen) j r e
      ];
      sound = λ i seen unseen. elim (Bool-cases (i == s)) [
        | inl same ↦ rw ((==_iff i s).0 same) (here q)
        | inr other ↦ loop.sound i seen (rw other unseen)
      ];
      counts = λ c. loop.counts (visit-Counted s st new c);
    }
