-- ===== src/KernelSlist/Correct.antt =====
-- The operations of src/list/ksingly_linked_list.c on the list of the nodes of a chain.
use mathlib.Core.Option.{some-injective}
use mathlib.Core.Path.{subst}
use data_structures.Prelude.{
  ℕ, zero, suc, ◌<◌, ◌≡◌, ◌≢◌, refl, sym, ap, ◌∙◌, arith, Option, none, some, List, [], ◌∷◌, ◌++◌,
  append-nil, All, All-append_left, length,
}
use data_structures.KernelList.Rings.{last_of, last_of-All}
use data_structures.KernelSlist.{
  Links, set_next, walk, pop_head, walk_two, pop_tail, push_head, push_tail, push_after,
}
use data_structures.KernelSlist.Chains.{
  Chain, IsChain, set_same, set_other, Chain-drop, insert-IsChain, remove-IsChain,
}

walk-last :
    (next : Links) (s : ℕ) (xs : List ℕ) (fuel : ℕ)
    → Chain next s xs
    → length xs < fuel
    → walk fuel next s ≡ some (last_of s xs)
unfolding walk
walk-last next s xs zero h q = absurd (omega arith)
walk-last next s [] (suc fuel) h q = rw (h, walk) refl
walk-last next s (x ∷ xs) (suc fuel) (e, h) q =
    rw (e, walk) (walk-last next x xs fuel h (omega arith))

-- `a` gets the node behind it, and the node takes over what followed.
module _ (next : Links) (a node : ℕ) (w : Option ℕ) (fresh : a ≢ node) where
  node_first :
      (set_next (set_next next node w) a (some node) a ≡ some node)
      × (set_next (set_next next node w) a (some node) node ≡ w)
      × ((c : ℕ) → c ≢ a → c ≢ node → set_next (set_next next node w) a (some node) c ≡ next c)
  node_first = (
    set_same (set_next next node w) a (some node),
    set_other (set_next next node w) a (some node) node (λ e. fresh (sym e)) ∙ set_same next node w,
    λ c p q. set_other (set_next next node w) a (some node) c p ∙ set_other next node w c q,
  )

  base_first :
      (set_next (set_next next a (some node)) node w a ≡ some node)
      × (set_next (set_next next a (some node)) node w node ≡ w)
      × ((c : ℕ) → c ≢ a → c ≢ node → set_next (set_next next a (some node)) node w c ≡ next c)
  base_first = (
    set_other (set_next next a (some node)) node w a fresh ∙ set_same next a (some node),
    set_same (set_next next a (some node)) node w,
    λ c p q. set_other (set_next next a (some node)) node w c q ∙ set_other next a (some node) c p,
  )

push_after-IsChain :
    (next : Links) (head : ℕ) (xs ys : List ℕ) (node : ℕ)
    → IsChain next head (xs ++ ys)
    → All (λ c. c ≢ node) (head ∷ xs ++ ys)
    → IsChain (push_after next (last_of head xs) node) head (xs ++ node ∷ ys)
unfolding push_after
push_after-IsChain next head xs ys node h n =
    let base = last_of head xs in
    let fresh =
      last_of-All (λ c. c ≢ node) head xs n.0 (All-append_left (λ c. c ≢ node) xs ys n.1) in
    let (p, q, same) = node_first next base node (next base) fresh in
    insert-IsChain next (push_after next base node) head xs ys node h n p q same

push_head-none :
    (next : Links) (head node : ℕ)
    → next head ≡ none
    → push_head next head node ≡ set_next (set_next next head (some node)) node none
unfolding push_head
push_head-none next head node e = rw (e, push_head) refl

push_head-some :
    (next : Links) (head node x : ℕ)
    → next head ≡ some x
    → push_head next head node ≡ set_next (set_next next node (some x)) head (some node)
unfolding push_head
push_head-some next head node x e = rw (e, push_head) refl

push_head-IsChain :
    (next : Links) (head : ℕ) (xs : List ℕ) (node : ℕ)
    → IsChain next head xs
    → All (λ c. c ≢ node) (head ∷ xs)
    → IsChain (push_head next head node) head (node ∷ xs)
push_head-IsChain next head [] node h n =
    let (p, q, same) = base_first next head node none n.0 in
    let m = set_next (set_next next head (some node)) node none in
    let ring = insert-IsChain next m head [] [] node h n p (q ∙ sym h.0) same in
    subst (λ m. IsChain m head (node ∷ [])) (sym (push_head-none next head node h.0)) ring
push_head-IsChain next head (x ∷ xs) node h n =
    let (p, q, same) = node_first next head node (some x) n.0 in
    let e : next head ≡ some x = h.0.0 in
    let m = set_next (set_next next node (some x)) head (some node) in
    let ring = insert-IsChain next m head [] (x ∷ xs) node h n p (q ∙ sym e) same in
    subst (λ m. IsChain m head (node ∷ x ∷ xs)) (sym (push_head-some next head node x e)) ring

push_tail-IsChain :
    (next : Links) (head : ℕ) (xs : List ℕ) (node fuel : ℕ)
    → IsChain next head xs
    → All (λ c. c ≢ node) (head ∷ xs)
    → length xs < fuel
    → (next' : Links) × (push_tail fuel next head node ≡ some next')
      × IsChain next' head (xs ++ node ∷ [])
unfolding push_tail
push_tail-IsChain next head xs node fuel h n q =
    let a = last_of head xs in
    let m = set_next (set_next next a (some node)) node none in
    let fresh = last_of-All (λ c. c ≢ node) head xs n.0 n.1 in
    let (p, r, same) = base_first next a node none fresh in
    let whole : IsChain next head (xs ++ []) = rw (append-nil xs) h in
    let at_end = Chain-drop next head xs [] whole.0 in
    let all : All (λ c. c ≢ node) (head ∷ xs ++ []) = rw (append-nil xs) n in
    (m, run xs h.0 q, insert-IsChain next m head xs [] node whole all p (r ∙ sym at_end) same)
  where
    run :
        (xs : List ℕ)
        → Chain next head xs
        → length xs < fuel
        → push_tail fuel next head node
          ≡ some (set_next (set_next next (last_of head xs) (some node)) node none)
    run [] e q = rw (e, push_tail) refl
    run (x ∷ xs) (e, h) q = rw (e, walk-last next head (x ∷ xs) fuel (e, h) q, push_tail) refl

-- For a node that is not in the chain, kslist_push_tail ends, with fuel for its nodes, and
-- kslist_push_tail, kslist_push_head and kslist_push_after each leave a chain in which the node
-- stands last, first or behind the named one, and all others are in their order.
pub kslist_pushes_correct :
    (next : Links) (head : ℕ) (xs ys : List ℕ) (node fuel : ℕ)
    → IsChain next head (xs ++ ys)
    → All (λ c. c ≢ node) (head ∷ xs ++ ys)
    → length (xs ++ ys) < fuel
    → (next' : Links) × (push_tail fuel next head node ≡ some next')
      × IsChain next' head ((xs ++ ys) ++ node ∷ [])
      × IsChain (push_head next head node) head (node ∷ xs ++ ys)
      × IsChain (push_after next (last_of head xs) node) head (xs ++ node ∷ ys)
kslist_pushes_correct next head xs ys node fuel h n q =
    let (next', run, ring) = push_tail-IsChain next head (xs ++ ys) node fuel h n q in
    (
      next',
      run,
      ring,
      push_head-IsChain next head (xs ++ ys) node h n,
      push_after-IsChain next head xs ys node h n,
    )

walk_two-last :
    (next : Links) (prev node : ℕ) (xs : List ℕ) (x fuel : ℕ)
    → Chain next prev (xs ++ x ∷ [])
    → next prev ≡ some node
    → length xs < fuel
    → walk_two fuel next prev node ≡ some (last_of prev xs, x)
unfolding walk_two
walk_two-last next prev node xs x zero h e q = absurd (omega arith)
walk_two-last next prev node [] x (suc fuel) (p, h) e q =
    let same : x ≡ node = some-injective x node (sym p ∙ e) in
    let at_end : next node ≡ none = ap next (sym same) ∙ h in
    rw (at_end, walk_two) (ap (λ n. some (prev, n)) (sym same))
walk_two-last next prev node (y ∷ []) x (suc fuel) (p, (r, h)) e q =
    let same : y ≡ node = some-injective y node (sym p ∙ e) in
    let more : next node ≡ some x = ap next (sym same) ∙ r in
    let rest = walk_two-last next y x [] x fuel (r, h) r (omega arith) in
    rw (more, walk_two) (rw (← same) rest)
walk_two-last next prev node (y ∷ z ∷ xs) x (suc fuel) (p, (r, h)) e q =
    let same : y ≡ node = some-injective y node (sym p ∙ e) in
    let more : next node ≡ some z = ap next (sym same) ∙ r in
    let rest = walk_two-last next y z (z ∷ xs) x fuel (r, h) r (omega arith) in
    rw (more, walk_two) (rw (← same) rest)

pop_head-IsChain :
    (next : Links) (head x : ℕ) (xs : List ℕ)
    → IsChain next head (x ∷ xs)
    → (next' : Links) × (pop_head next head ≡ (next', some x)) × IsChain next' head xs
unfolding pop_head
pop_head-IsChain next head x xs h =
    (set_next next head (next x), rw (h.0.0, pop_head) refl, remove-IsChain next head [] x xs h)

pop_tail-two :
    (next : Links) (head : ℕ) (xs : List ℕ) (x fuel : ℕ)
    → Chain next head (xs ++ x ∷ [])
    → length xs < fuel
    → next x ≡ none
    → pop_tail fuel next head ≡ some (set_next next (last_of head xs) none, some x)
unfolding pop_tail
pop_tail-two next head [] x fuel h q e =
    let two = walk_two-last next head x [] x fuel h h.0 q in rw (h.0, pop_tail) (rw two refl)
pop_tail-two next head (y ∷ xs) x fuel h q e =
    let two = walk_two-last next head y (y ∷ xs) x fuel h h.0 q in rw (h.0, pop_tail) (rw two refl)

pop_tail-IsChain :
    (next : Links) (head : ℕ) (xs : List ℕ) (x fuel : ℕ)
    → IsChain next head (xs ++ x ∷ [])
    → length xs < fuel
    → (next' : Links) × (pop_tail fuel next head ≡ some (next', some x)) × IsChain next' head xs
pop_tail-IsChain next head xs x fuel h q =
    let rest = Chain-drop next head xs (x ∷ []) h.0 in
    let ring = remove-IsChain next head xs x [] h in
    let ring' : IsChain (set_next next (last_of head xs) none) head xs =
      rw (append-nil xs, rest.1) at ring in
    (set_next next (last_of head xs) none, pop_tail-two next head xs x fuel h.0 q rest.1, ring')

-- Kslist_pop_head and kslist_pop_tail leave an empty list alone and return NULL; on any other,
-- with fuel for its nodes, they return the first or the last node and leave a chain of the
-- others, in their order.
pub kslist_pops_correct :
    (next : Links) (head fuel : ℕ)
    → (IsChain next head []
        → (pop_head next head ≡ (next, none)) × (pop_tail fuel next head ≡ some (next, none)))
      × ((x : ℕ) (xs : List ℕ)
          → IsChain next head (x ∷ xs)
          → (next' : Links) × (pop_head next head ≡ (next', some x)) × IsChain next' head xs)
      × ((xs : List ℕ) (x : ℕ)
          → IsChain next head (xs ++ x ∷ [])
          → length xs < fuel
          → (next' : Links) × (pop_tail fuel next head ≡ some (next', some x))
            × IsChain next' head xs)
unfolding pop_head pop_tail
kslist_pops_correct next head fuel = (
  λ h. (rw (h.0, pop_head) refl, rw (h.0, pop_tail) refl),
  pop_head-IsChain next head,
  λ xs x h q. pop_tail-IsChain next head xs x fuel h q,
)
