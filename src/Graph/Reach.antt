-- ===== src/Graph/Reach.antt =====
-- Reachability in a graph, nodes that are counted, and what a traversal from a node does.
use data_structures.Prelude.{
  ℕ, zero, suc, ◌+◌, ◌≤◌, ◌<◌, ◌≡◌, refl, ap, ◌∙◌, arith, Bool, true, false, not, List, [], ◌∷◌,
  ◌++◌, ◌==◌, ==_iff, inl, inr, Bool-cases,
}
use data_structures.Graph.{Graph, has_edge, State, visit}

-- a path of edges
pub data Reach (graph : Graph) (s : ℕ) : ℕ → Type 0 where
  here : s < graph.nodes → Reach graph s s
  onwards :
      (i j : ℕ) → Reach graph s i → has_edge graph i j ≡ true → j < graph.nodes → Reach graph s j

pub Reach-first :
    (graph : Graph) (s k i : ℕ)
    → s < graph.nodes
    → has_edge graph s k ≡ true
    → Reach graph k i
    → Reach graph s i
Reach-first graph s k i q e (here p) = onwards s k (here q) e p
Reach-first graph s k _ q e (onwards i j r f p) = onwards i j (Reach-first graph s k i q e r) f p

abbrev pub one_if : Bool → ℕ
one_if true = 1
one_if false = 0

-- how often a node was printed
abbrev pub printed : ℕ → List ℕ → ℕ
printed i [] = 0
printed i (x ∷ xs) = one_if (i == x) + printed i xs

pub printed-append : (i : ℕ) (xs ys : List ℕ) → printed i (xs ++ ys) ≡ printed i xs + printed i ys
printed-append i [] ys = omega arith
printed-append i (x ∷ xs) ys = omega (arith, printed-append i xs ys)

-- the nodes below `n` that are not visited
unfoldable pub unvisited : ℕ → (ℕ → Bool) → ℕ
unvisited zero visited = 0
unvisited (suc n) visited = unvisited n visited + one_if (not (visited n))

abbrev pub Within : (ℕ → Bool) → (ℕ → Bool) → Type 0
Within v w = (i : ℕ) → v i ≡ true → w i ≡ true

pub unvisited-Within : (n : ℕ) (v w : ℕ → Bool) → Within v w → unvisited n w ≤ unvisited n v
unfolding unvisited
unvisited-Within zero v w h = omega arith
unvisited-Within (suc n) v w h =
    let rest = unvisited-Within n v w h in
    elim (Bool-cases (v n)) [
      | inl seen ↦ rw (seen, h n seen) (omega (arith, rest))
      | inr new ↦ elim (Bool-cases (w n)) [
        | inl seen ↦ rw (new, seen) (omega (arith, rest))
        | inr unseen ↦ rw (new, unseen) (omega (arith, rest))
      ]
    ]

pub visit-Within : (s : ℕ) (st : State) → Within st.0 (visit s st).0
visit-Within s st i h = elim (Bool-cases (i == s)) [ inl e ↦ rw e refl | inr e ↦ rw e h ]

-- A node that is visited counts no more.
pub unvisited-visit :
    (n s : ℕ) (st : State)
    → s < n
    → st.0 s ≡ false
    → suc (unvisited n (visit s st).0) ≤ unvisited n st.0
unfolding unvisited
unvisited-visit zero s st q new = absurd (omega arith)
unvisited-visit (suc n) s st q new = elim (Bool-cases (n == s)) [
  | inl e ↦
      let same : n ≡ s = (==_iff n s).0 e in
      let less = unvisited-Within n st.0 (visit s st).0 (visit-Within s st) in
      let new' : st.0 n ≡ false = ap st.0 same ∙ new in rw (e, new') (omega (arith, less))
  | inr e ↦ let rest = unvisited-visit n s st (ground arith) new in rw e (omega (arith, rest))
]

pub unvisited_bound : (n : ℕ) → unvisited n (λ i. false) ≤ n
unfolding unvisited
unvisited_bound zero = omega arith
unvisited_bound (suc n) = omega (arith, unvisited_bound n)
