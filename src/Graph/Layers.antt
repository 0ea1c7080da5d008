-- ===== src/Graph/Layers.antt =====
-- `graph_bfs` in src/graph/graph.c, against reachability.
use data_structures.Prelude.{
  ℕ, zero, suc, ◌+◌, ◌^◌, ◌<◌, ◌≡◌, refl, ap, ◌∙◌, arith, Bool, true, false, Option, some, List, [],
  ◌∷◌, ◌++◌, ltb, ◌==◌, ==_iff, inl, inr, Bool-cases, ℤ, pos, length,
}
use data_structures.Queue.{create}
use data_structures.Queue.Interface
use data_structures.Queue.Interface.{Calls, IsQueue, calls-IsQueue, create-Good}
use data_structures.Graph.{Graph, has_edge}
use data_structures.Graph.Reach.{
  Reach, here, onwards, one_if, printed, printed-append, unvisited, Within, unvisited-Within,
  unvisited_bound,
}
use data_structures.Graph.Waiting.{Inv, enqueue-Inv, scan-Scanned}
use data_structures.Graph.Breadth.{mark, bfs_loop, bfs}

-- The nodes that are printed.
pub record Spread (graph : Graph) (s : ℕ) (answer : Option (List ℕ × ℤ)) : Type 0 where
  pub out : List ℕ
  pub run : answer ≡ some (out, pos 0)
  pub once : (i : ℕ) → Reach graph s i → printed i out ≡ 1
  pub only : (i : ℕ) → 0 < printed i out → Reach graph s i

module _ {Q : Type 0} (calls : Calls ℕ Q) (law : IsQueue calls) where
  -- The nodes that are printed, when all that wait were handled.
  record Finished (graph : Graph) (s : ℕ) (visited : ℕ → Bool) (answer : Option (List ℕ × ℤ))
      : Type 0 where
    out : List ℕ
    last : ℕ → Bool
    run : answer ≡ some (out, pos 0)
    within : Within visited last
    counts : (i : ℕ) → printed i out ≡ one_if (last i)
    sound : (i : ℕ) → last i ≡ true → Reach graph s i
    closed : (i j : ℕ) → last i ≡ true → j < graph.nodes → has_edge graph i j ≡ true → last j ≡ true

  -- the neighbours of each printed node are visited
  abbrev Handled : Graph → (ℕ → Bool) → List ℕ → Type 0
  Handled graph visited out =
      (i j : ℕ) → 0 < printed i out → j < graph.nodes → has_edge graph i j ≡ true → visited j ≡ true

  Reach-lt : (graph : Graph) (s i : ℕ) → Reach graph s i → i < graph.nodes
  Reach-lt graph s _ (here q) = q
  Reach-lt graph s _ (onwards i j r e q) = q

  front_visited :
      (visited : ℕ → Bool) (out w : List ℕ) (c : ℕ)
      → ((i : ℕ) → printed i out + printed i (c ∷ w) ≡ one_if (visited i))
      → visited c ≡ true
  front_visited visited out w c counts = elim (Bool-cases (visited c)) [
    | inl seen ↦ seen
    | inr unseen ↦
        let self : (c == c) ≡ true = ground arith in
        let none_yet : printed c out + (1 + printed c w) ≡ 0 = rw (self, unseen) at (counts c) in
        absurd (omega (arith, none_yet))
  ]

  -- The node at the front is printed.
  front-Inv :
      (graph : Graph) (s : ℕ) (visited : ℕ → Bool) (queue queue1 : Q) (out w : List ℕ) (c : ℕ)
      → Inv calls law graph s visited queue out (c ∷ w)
      → law.Good queue1
      → law.lane queue1 ≡ record { waiting = w; room = (law.lane queue).room }
      → Inv calls law graph s visited queue1 (out ++ c ∷ []) w
  front-Inv graph s visited queue queue1 out w c inv good lane = record {
    good = good;
    waits = ap (λ l. l.waiting) lane;
    roomy =
        (let e : (law.lane queue1).room ≡ (law.lane queue).room = ap (λ l. l.room) lane in
          let roomy = inv.roomy in omega (arith, roomy, e));
    counts = λ i.
        (let more = printed-append i out (c ∷ []) in
          let before = inv.counts i in omega (arith, more, before));
    sound = inv.sound;
  }

  front-Handled :
      (graph : Graph) (visited visited' : ℕ → Bool) (out : List ℕ) (c : ℕ)
      → Handled graph visited out
      → Within visited visited'
      → ((j : ℕ) → j < graph.nodes → has_edge graph c j ≡ true → visited' j ≡ true)
      → Handled graph visited' (out ++ c ∷ [])
  front-Handled graph visited visited' out c h within edges i j q p e =
      let more = printed-append i out (c ∷ []) in
      elim (Bool-cases (i == c)) [
        | inl same ↦ edges j p (rw ((==_iff i c).0 same) at e)
        | inr other ↦
            let more' : printed i (out ++ c ∷ []) ≡ printed i out + (0 + 0) = rw other at more in
            within j (h i j (omega (arith, q, more')) p e)
      ]

  bfs_loop-Finished :
      (fuel : ℕ) (graph : Graph) (s : ℕ) (visited : ℕ → Bool) (queue : Q) (out w : List ℕ)
      → Inv calls law graph s visited queue out w
      → Handled graph visited out
      → unvisited graph.nodes visited + length w < fuel
      → Finished graph s visited (bfs_loop calls fuel graph visited queue out)
  unfolding bfs_loop
  bfs_loop-Finished zero graph s visited queue out w inv h q = absurd (omega arith)
  bfs_loop-Finished (suc fuel) graph s visited queue out [] inv h q =
      let empty : calls.is_empty queue ≡ true =
        law.empty-waiting queue inv.good ∙ (rw inv.waits refl) in
      let counts : (i : ℕ) → printed i out ≡ one_if (visited i) =
        λ i. (let c = inv.counts i in omega (arith, c)) in
      record {
        out = out;
        last = visited;
        run = rw empty refl;
        within = λ i e. e;
        counts = counts;
        sound = inv.sound;
        closed = λ i j seen p e. h i j (let c = counts i ∙ ap one_if seen in omega (arith, c)) p e;
      }
  bfs_loop-Finished (suc fuel) graph s visited queue out (c ∷ w) inv h q =
      let more : (length (c ∷ w) == 0) ≡ false = ground arith in
      let busy : calls.is_empty queue ≡ false =
        law.empty-waiting queue inv.good ∙ (rw inv.waits more) in
      let (queue1, taken, good, lane) = law.dequeued queue c w inv.good inv.waits in
      let out' = out ++ c ∷ [] in
      let reached = inv.sound c (front_visited visited out w c inv.counts) in
      let inside : ltb c graph.nodes ≡ true =
        (let lt = Reach-lt graph s c reached in ground arith) in
      let inv1 = front-Inv graph s visited queue queue1 out w c inv good lane in
      let sc =
        scan-Scanned calls law graph s c visited queue1 out' w inv1 reached graph.nodes
          (omega arith) in
      let handled = front-Handled graph visited sc.visited' out c h sc.within sc.edges in
      let measure = sc.measure in
      let f =
        bfs_loop-Finished fuel graph s sc.visited' sc.queue' out' sc.w' sc.inv handled
          (omega (arith, measure, q)) in
      record {
        out = f.out;
        last = f.last;
        run = rw (busy, taken) (rw (inside, sc.run) f.run);
        within = λ i e. f.within i (sc.within i e);
        counts = f.counts;
        sound = f.sound;
        closed = f.closed;
      }

  reached_last :
      (graph : Graph) (s i : ℕ) (visited : ℕ → Bool) (answer : Option (List ℕ × ℤ))
      (f : Finished graph s visited answer)
      → visited s ≡ true
      → Reach graph s i
      → f.last i ≡ true
  reached_last graph s _ visited answer f e (here q) = f.within s e
  reached_last graph s _ visited answer f e (onwards i j r edge q) =
      f.closed i j (reached_last graph s i visited answer f e r) q edge

  pub graph_bfs_correct :
      (graph : Graph) (s fuel : ℕ) (queue : Q)
      → s < graph.nodes
      → law.Good queue
      → law.lane queue ≡ record { waiting = []; room = graph.nodes }
      → suc graph.nodes < fuel
      → Spread graph s (bfs calls fuel true (some queue) (some graph) s)
  unfolding bfs
  graph_bfs_correct graph s fuel queue q good lane enough =
      let all = unvisited_bound graph.nodes in
      let room : (law.lane queue).room ≡ graph.nodes = ap (λ l. l.room) lane in
      let start : Inv calls law graph s (λ i. false) queue [] [] = record {
        good = good;
        waits = ap (λ l. l.waiting) lane;
        roomy = omega (arith, room, all);
        counts = λ i. omega arith;
        sound = λ i seen. cc seen;
      } in
      let (queue', run, inv) =
        enqueue-Inv calls law graph s s (λ i. false) queue [] [] start q refl (here q) in
      let marked = mark s (λ i. false) in
      let fewer = unvisited-Within graph.nodes (λ i. false) marked (λ i e. cc e) in
      let f =
        bfs_loop-Finished fuel graph s marked queue' [] (s ∷ []) inv
          (λ i j p. absurd (omega (arith, p))) (omega (arith, fewer, all, enough)) in
      let inside : ltb s graph.nodes ≡ true = ground arith in
      let self : (s == s) ≡ true = ground arith in
      let at_s : marked s ≡ true = rw self refl in
      record {
        out = f.out;
        run = rw (inside, run) f.run;
        once = λ i r.
            f.counts i
            ∙ ap one_if (
                reached_last graph s i marked (bfs_loop calls fuel graph marked queue' []) f at_s
                  r);
        only = λ i more. elim (Bool-cases (f.last i)) [
          | inl seen ↦ f.sound i seen
          | inr unseen ↦
              let never : printed i f.out ≡ 0 = f.counts i ∙ ap one_if unseen in
              absurd (omega (arith, never, more))
        ];
      }

-- On a graph of less than 256 nodes, if the array of visited nodes can be allocated, with the
-- queue of src/queue/queue.c, made for as many elements as there are nodes, and with fuel for two
-- rounds more than there are nodes, graph_bfs from a node of the graph ends, the queue never
-- refuses a node, and it returns 0 after printing exactly the nodes that the node reaches, each
-- once.
pub graph_bfs_on_queue :
    (graph : Graph) (s fuel : ℕ) (storage : List ℕ)
    → s < graph.nodes
    → graph.nodes < 256
    → length storage ≡ graph.nodes
    → suc graph.nodes < fuel
    → Spread graph s (
        bfs Interface.calls fuel true
          (some (create true (some storage) graph.nodes))
          (some graph)
          s)
graph_bfs_on_queue graph s fuel storage q small e enough =
    let big : graph.nodes < 2 ^ 32 = omega arith in
    let (good, lane) = create-Good storage graph.nodes e big in
    graph_bfs_correct Interface.calls calls-IsQueue graph s fuel
      (create true (some storage) graph.nodes) q good lane enough
