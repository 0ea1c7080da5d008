-- ===== src/Graph/Waiting.antt =====
-- `graph_bfs` in src/graph/graph.c: the nodes that wait in the queue, and one loop over neighbours.
use data_structures.Prelude.{
  ℕ, zero, suc, ◌+◌, ◌-◌, ◌≤◌, ◌<◌, ◌≡◌, refl, ap, ◌∙◌, arith, Bool, true, false, not, ◌&&◌, Option,
  some, List, [], ◌∷◌, ◌++◌, ◌==◌, ==_iff, inl, inr, Bool-cases, length, length-append,
}
use data_structures.Queue.Interface.{Calls, IsQueue}
use data_structures.Graph.{Graph, has_edge}
use data_structures.Graph.Reach.{
  Reach, onwards, one_if, printed, printed-append, unvisited, Within, visit-Within, unvisited-visit,
}
use data_structures.Graph.Call.{one_more}
use data_structures.Graph.Breadth.{mark, scan}

module _ {Q : Type 0} (calls : Calls ℕ Q) (law : IsQueue calls) where
  -- Each visited node is printed or waits, and there is room for all others.
  pub record Inv (graph : Graph) (s : ℕ) (visited : ℕ → Bool) (queue : Q) (out w : List ℕ)
      : Type 0 where
    pub good : law.Good queue
    pub waits : (law.lane queue).waiting ≡ w
    pub roomy : unvisited graph.nodes visited ≤ (law.lane queue).room
    pub counts : (i : ℕ) → printed i out + printed i w ≡ one_if (visited i)
    pub sound : (i : ℕ) → visited i ≡ true → Reach graph s i

  pub record Scanned (graph : Graph) (s k : ℕ) (edge visited : ℕ → Bool) (out w : List ℕ)
      (answer : Option ((ℕ → Bool) × Q)) : Type 0 where
    pub visited' : ℕ → Bool
    pub queue' : Q
    pub w' : List ℕ
    pub run : answer ≡ some (visited', queue')
    pub inv : Inv graph s visited' queue' out w'
    pub within : Within visited visited'
    pub edges : (j : ℕ) → j < k → edge j ≡ true → visited' j ≡ true
    pub measure :
        unvisited graph.nodes visited' + length w' ≤ unvisited graph.nodes visited + length w

  mark_counts :
      (k : ℕ) (visited : ℕ → Bool) (out w : List ℕ)
      → visited k ≡ false
      → ((i : ℕ) → printed i out + printed i w ≡ one_if (visited i))
      → (i : ℕ) → printed i out + printed i (w ++ k ∷ []) ≡ one_if (mark k visited i)
  mark_counts k visited out w new c i =
      let more = printed-append i w (k ∷ []) in
      let before = c i in
      elim (Bool-cases (i == k)) [
        | inl e ↦
            let same : i ≡ k = (==_iff i k).0 e in
            let none_yet : one_if (visited i) ≡ 0 = ap one_if (ap visited same ∙ new) in
            let more' : printed i (w ++ k ∷ []) ≡ printed i w + (1 + 0) = rw e at more in
            rw e (omega (arith, before, none_yet, more'))
        | inr e ↦
            let more' : printed i (w ++ k ∷ []) ≡ printed i w + (0 + 0) = rw e at more in
            rw e (omega (arith, before, more'))
      ]

  -- A new node is enqueued: there is room.
  pub enqueue-Inv :
      (graph : Graph) (s k : ℕ) (visited : ℕ → Bool) (queue : Q) (out w : List ℕ)
      → Inv graph s visited queue out w
      → k < graph.nodes
      → visited k ≡ false
      → Reach graph s k
      → (queue' : Q) × (calls.enqueue queue k ≡ some queue')
        × Inv graph s (mark k visited) queue' out (w ++ k ∷ [])
  enqueue-Inv graph s k visited queue out w inv q new r =
      let less = unvisited-visit graph.nodes k (visited, []) q new in
      let room = (law.lane queue).room in
      let roomy = inv.roomy in
      let left : room ≡ suc (room - 1) = omega (arith, less, roomy) in
      let (queue', run, good, lane) = law.enqueued queue k (room - 1) inv.good left in
      (
        queue',
        run,
        record {
          good = good;
          waits = ap (λ l. l.waiting) lane ∙ ap (λ l. l ++ k ∷ []) inv.waits;
          roomy =
              (let e : (law.lane queue').room ≡ room - 1 = ap (λ l. l.room) lane in
                omega (arith, less, roomy, e));
          counts = mark_counts k visited out w new inv.counts;
          sound = λ i seen. elim (Bool-cases (i == k)) [
            | inl e ↦ rw ((==_iff i k).0 e) r
            | inr e ↦ inv.sound i (rw e at seen)
          ];
        },
      )

  pub scan-Scanned :
      (graph : Graph) (s c : ℕ) (visited : ℕ → Bool) (queue : Q) (out w : List ℕ)
      → Inv graph s visited queue out w
      → Reach graph s c
      → (k : ℕ) → k ≤ graph.nodes
      → Scanned graph s k
          (has_edge graph c)
          visited
          out
          w
          (scan calls k (has_edge graph c) visited queue)
  unfolding scan
  scan-Scanned graph s c visited queue out w inv r zero p = record {
    visited' = visited;
    queue' = queue;
    w' = w;
    run = refl;
    inv = inv;
    within = λ i e. e;
    edges = λ j q. absurd (omega arith);
    measure = omega arith;
  }
  scan-Scanned graph s c visited queue out w inv r (suc k) p =
      let before = scan-Scanned graph s c visited queue out w inv r k (omega arith) in
      let edge = has_edge graph c in
      let same : (edge k && not (before.visited' k)) ≡ false
          → (edge k ≡ true → before.visited' k ≡ true)
          → Scanned graph s (suc k) edge visited out w (scan calls (suc k) edge visited queue) =
        λ no last. record {
          visited' = before.visited';
          queue' = before.queue';
          w' = before.w';
          run = rw before.run (rw no refl);
          inv = before.inv;
          within = before.within;
          edges = one_more k edge before.visited' before.edges last;
          measure = before.measure;
        } in
      elim (Bool-cases (has_edge graph c k)) [
        | inr no_edge ↦ same (rw no_edge refl) (λ e. cc (no_edge, e))
        | inl linked ↦ elim (Bool-cases (before.visited' k)) [
          | inl seen ↦ same (rw (linked, seen) refl) (λ e. seen)
          | inr new ↦
              let reached = onwards c k r linked (omega arith) in
              let (queue', run, inv') =
                enqueue-Inv graph s k before.visited' before.queue' out before.w' before.inv
                  (omega arith) new reached in
              let less = unvisited-visit graph.nodes k (before.visited', []) (omega arith) new in
              let longer = length-append before.w' (k ∷ []) in
              let measure = before.measure in
              let self : (k == k) ≡ true = ground arith in
              record {
                visited' = mark k before.visited';
                queue' = queue';
                w' = before.w' ++ k ∷ [];
                run = rw before.run (rw (linked, new) (rw run refl));
                inv = inv';
                within = λ i e. visit-Within k (before.visited', []) i (before.within i e);
                edges =
                    one_more k edge (mark k before.visited')
                      (λ j q e. visit-Within k (before.visited', []) j (before.edges j q e))
                      (λ e. rw self refl);
                measure = omega (arith, measure, less, longer);
              }
        ]
      ]
