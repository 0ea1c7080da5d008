-- ===== src/Stack/Correct.antt =====
-- The stack of src/stack/stack.c on the list of its elements.
use data_structures.Prelude.{
  ℕ, zero, suc, ◌<◌, ◌≡◌, ◌≢◌, refl, ap, ◌∙◌, arith, true, false, none, some, List, [], ◌∷◌, ◌++◌,
  get_or, map, All, length, if◌then◌else◌, ◌==◌, pos,
}
use data_structures.KernelList
use data_structures.KernelList.{Links}
use data_structures.KernelList.Rings.{IsRing, Linked}
use data_structures.KernelList.Correct.{
  head_init-IsRing, is_empty-IsRing, pushes_correct, pops_correct,
}
use data_structures.Stack.Linked.{Memory, create, is_empty, push, pop, top, destroy_loop, destroy}

destroy_loop_lem :
    (links : Links) (stack a : ℕ) (nodes : List ℕ) (fuel : ℕ)
    → All (λ c. c ≢ stack) nodes
    → length nodes < fuel
    → Linked links a nodes stack
    → destroy_loop fuel links stack (links.next a) ≡ some nodes
destroy_loop_lem links stack a nodes zero d q h = absurd (omega arith)
destroy_loop_lem links stack a [] (suc fuel) d q h =
    let at_end : (links.next a == stack) ≡ true = (let e = h.0 in ground arith) in rw at_end refl
destroy_loop_lem links stack a (x ∷ nodes) (suc fuel) (p, d) q ((n, v), rest) =
    let inside : (links.next a == stack) ≡ false = ground arith in
    let deeper = destroy_loop_lem links stack x nodes fuel d (omega arith) rest in
    rw (inside, n, deeper) refl

module _ {ℓ} {A : Type ℓ} where
  -- The list at `stack` has these nodes, and their entries hold the data, the top first.
  pub record Holds (memory : Memory A) (stack : ℕ) (nodes : List ℕ) (xs : List A) : Type ℓ where
    pub ring : IsRing memory.links stack nodes
    pub values : map memory.datum nodes ≡ xs

  map-frame :
      (f : ℕ → A) (node : ℕ) (x : A) (nodes : List ℕ)
      → All (λ c. c ≢ node) nodes
      → map (λ c. if c == node then x else f c) nodes ≡ map f nodes
  map-frame f node x [] h = refl
  map-frame f node x (c ∷ nodes) (p, h) =
      let other : (c == node) ≡ false = ground arith in
      rw other (ap (λ l. f c ∷ l) (map-frame f node x nodes h))

  pub create-Holds :
      (memory : Memory A) (head : ℕ)
      → (create memory (some head) ≡ ((create memory (some head)).0, some head))
        × Holds (create memory (some head)).0 head [] []
  unfolding create
  create-Holds memory head =
      (refl, record { ring = head_init-IsRing memory.links head; values = refl })

  -- On a stack that holds a list, for an entry that malloc gives and that is not in it,
  -- stack_push returns 0, and the stack then holds the element on top of the list.
  pub stack_push_correct :
      (memory : Memory A) (stack entry : ℕ) (nodes : List ℕ) (xs : List A) (x : A)
      → Holds memory stack nodes xs
      → All (λ c. c ≢ entry) (stack ∷ nodes)
      → (memory' : Memory A) × (push memory (some stack) (some entry) x ≡ (memory', pos 0))
        × Holds memory' stack (entry ∷ nodes) (x ∷ xs)
  unfolding push
  stack_push_correct memory stack entry nodes xs x h n =
      let same : (entry == entry) ≡ true = ground arith in
      (
        (push memory (some stack) (some entry) x).0,
        refl,
        record {
          ring = (pushes_correct memory.links stack [] nodes entry h.ring n).0;
          values = rw same (ap (λ l. x ∷ l) (map-frame memory.datum entry x nodes n.1 ∙ h.values));
        },
      )

  abbrev pub tail_of : List A → List A
  tail_of [] = []
  tail_of (x ∷ xs) = xs

  -- On a stack that holds an element on top of a list, stack_top returns the element, and
  -- stack_pop returns it too, frees its entry and leaves the stack holding the list.
  pub stack_pop_correct :
      (memory : Memory A) (stack node : ℕ) (nodes : List ℕ) (x : A) (xs : List A)
      → Holds memory stack (node ∷ nodes) (x ∷ xs)
      → (memory' : Memory A) × (top memory (some stack) ≡ some x)
        × (pop memory (some stack) ≡ (memory', some (x, node)))
        × Holds memory' stack nodes xs
  unfolding pop top KernelList.get_head
  stack_pop_correct memory stack node nodes x xs h =
      let item : memory.datum node ≡ x = ap (λ l. get_or l 0 x) h.values in
      let rest : map memory.datum nodes ≡ xs = ap tail_of h.values in
      let (links', run, ring) = (pops_correct memory.links stack).1 node nodes h.ring in
      (
        record { links = links'; datum = memory.datum },
        rw (h.ring.0.0.0, item) refl,
        rw run (rw item refl),
        record { ring = ring; values = rest },
      )

  -- An empty stack gives nothing to pop.
  pub stack_empty :
      (memory : Memory A) (stack : ℕ)
      → Holds memory stack [] []
      → (pop memory (some stack) ≡ (memory, none)) × (is_empty memory stack ≡ true)
  unfolding pop is_empty
  stack_empty memory stack h =
      let run = ((pops_correct memory.links stack).0 h.ring).0 in
      (rw run refl, is_empty-IsRing memory.links stack [] h.ring)

  -- Each entry and then the head is freed.
  pub stack_destroy_correct :
      (memory : Memory A) (stack : ℕ) (nodes : List ℕ) (xs : List A) (fuel : ℕ)
      → Holds memory stack nodes xs
      → length nodes < fuel
      → destroy fuel memory stack ≡ some (nodes ++ stack ∷ [])
  unfolding destroy
  stack_destroy_correct memory stack nodes xs fuel h q =
      let (linked, (distinct, d)) = h.ring in
      rw (destroy_loop_lem memory.links stack stack nodes fuel distinct q linked) refl
