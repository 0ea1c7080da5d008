-- ===== src/KernelList/Correct.antt =====
-- The operations of src/list/kdoubly_linked_list.c on the list of the nodes of a ring.
use data_structures.Prelude.{
  ℕ, ◌≡◌, ◌≢◌, refl, sym, ap, ◌∙◌, arith, Bool, true, false, none, some, List, [], ◌∷◌, ◌++◌,
  append-nil, All, All-append_left, All-append_right, if◌then◌else◌, ◌==◌, inl, inr, Bool-cases,
}
use data_structures.KernelList.{
  Links, head_init, is_empty, pop_head, pop_tail, push_head, push_tail, push_after, delete,
}
use data_structures.KernelList.Rings.{
  Linked, IsRing, last_of, first_of, last_of-All, first_of-All, Linked-first, Linked-last,
  Linked-next,
}
use data_structures.KernelList.Splice.{Inserted, Removed, insert-IsRing}
use data_structures.KernelList.Unlink.{remove-IsRing}

pub head_init-IsRing : (m : Links) (head : ℕ) → IsRing (head_init m head) head []
unfolding head_init
head_init-IsRing m head = ((ground arith, ground arith), (tt, tt))

push_after-Inserted :
    (m : Links) (base node : ℕ)
    → base ≢ node
    → m.next base ≢ node
    → Inserted m (push_after m base node) base node (m.next base)
unfolding push_after
push_after-Inserted m base node p q = record {
  to_next = λ c. ground arith;
  to_prev = λ c. ground arith;
}

delete-Removed : (m : Links) (node : ℕ) → Removed m (delete m node) (m.prev node) (m.next node)
unfolding delete
delete-Removed m node =
    let same : (if node == m.prev node then m.next node else m.next node) ≡ m.next node =
      ground arith in
    record { to_next = λ c. refl; to_prev = λ c. rw same refl }

pop_head-Removed :
    (m : Links) (head : ℕ)
    → (m.next head == head) ≡ false
    → (pop_head m head ≡ ((pop_head m head).0, some (m.next head)))
      × Removed m (pop_head m head).0 head (m.next (m.next head))
unfolding pop_head is_empty
pop_head-Removed m head there = rw there (refl, record { to_next = λ c. refl; to_prev = λ c. refl })

pop_tail-Removed :
    (m : Links) (head : ℕ)
    → (m.next head == head) ≡ false
    → (pop_tail m head ≡ ((pop_tail m head).0, some (m.prev head)))
      × Removed m (pop_tail m head).0 (m.prev (m.prev head)) head
unfolding pop_tail is_empty
pop_tail-Removed m head there =
    let same : (if m.prev head == head then m.prev (m.prev head) else m.prev (m.prev head))
        ≡ m.prev (m.prev head) =
      ground arith in
    rw there (refl, record { to_next = λ c. rw same refl; to_prev = λ c. refl })

push_head-Inserted :
    (m : Links) (head node : ℕ)
    → head ≢ node
    → m.next head ≢ node
    → (m.next head ≡ head → m.prev head ≡ head)
    → Inserted m (push_head m head node) head node (m.next head)
unfolding push_head is_empty
push_head-Inserted m head node p q r = elim (Bool-cases (m.next head == head)) [
  | inl only ↦
      let e : m.next head ≡ head = ground arith in
      rw only (record { to_next = λ c. ground arith; to_prev = λ c. ground arith })
  | inr there ↦ rw there (record { to_next = λ c. ground arith; to_prev = λ c. ground arith })
]

push_tail-Inserted :
    (m : Links) (head node : ℕ)
    → head ≢ node
    → m.prev head ≢ node
    → (m.next head ≡ head → m.prev head ≡ head)
    → Inserted m (push_tail m head node) (m.prev head) node head
unfolding push_tail is_empty
push_tail-Inserted m head node p q r = elim (Bool-cases (m.next head == head)) [
  | inl only ↦
      let e : m.next head ≡ head = ground arith in
      rw only (record { to_next = λ c. ground arith; to_prev = λ c. ground arith })
  | inr there ↦ rw there (record { to_next = λ c. ground arith; to_prev = λ c. ground arith })
]

next_last :
    (m : Links) (a : ℕ) (xs ys : List ℕ) (b : ℕ)
    → Linked m a (xs ++ ys) b
    → m.next (last_of a xs) ≡ first_of ys b
next_last m a [] ys b h = Linked-first m a ys b h
next_last m a (x ∷ xs) ys b h = next_last m x xs ys b h.1

abbrev pub is_nil : List ℕ → Bool
is_nil [] = true
is_nil (x ∷ xs) = false

last_of-snoc : (a : ℕ) (xs : List ℕ) (x : ℕ) → last_of a (xs ++ x ∷ []) ≡ x
last_of-snoc a [] x = refl
last_of-snoc a (y ∷ xs) x = last_of-snoc y xs x

only_head :
    (m : Links) (head : ℕ) (xs : List ℕ)
    → IsRing m head xs
    → m.next head ≡ head
    → m.prev head ≡ head
only_head m head [] h e = h.0.1
only_head m head (x ∷ xs) h e = absurd (h.1.0.0 (sym h.0.0.0 ∙ e))

not_only :
    (m : Links) (head x : ℕ) (xs : List ℕ) → IsRing m head (x ∷ xs) → (m.next head == head) ≡ false
not_only m head x xs h = let e = h.0.0.0 in let d = h.1.0.0 in ground arith

pub is_empty-IsRing :
    (m : Links) (head : ℕ) (xs : List ℕ) → IsRing m head xs → is_empty m head ≡ is_nil xs
unfolding is_empty
is_empty-IsRing m head [] h = let e = h.0.0 in ground arith
is_empty-IsRing m head (x ∷ xs) h = not_only m head x xs h

-- For a node that is not in the ring, kdlist_push_head, kdlist_push_tail and kdlist_push_after
-- each leave a ring in which the node stands first, last or behind the named one, and all others
-- are in their order.
pub pushes_correct :
    (m : Links) (head : ℕ) (xs ys : List ℕ) (node : ℕ)
    → IsRing m head (xs ++ ys)
    → All (λ c. c ≢ node) (head ∷ xs ++ ys)
    → IsRing (push_head m head node) head (node ∷ xs ++ ys)
      × IsRing (push_tail m head node) head ((xs ++ ys) ++ node ∷ [])
      × IsRing (push_after m (last_of head xs) node) head (xs ++ node ∷ ys)
pushes_correct m head xs ys node h n =
    let zs = xs ++ ys in
    let only = only_head m head zs h in
    let first = Linked-first m head zs head h.0 in
    let last = Linked-last m head zs head h.0 in
    let at_first : m.next head ≢ node =
      (λ e. first_of-All (λ c. c ≢ node) zs head n.1 n.0 (sym first ∙ e)) in
    let at_last : m.prev head ≢ node =
      (λ e. last_of-All (λ c. c ≢ node) head zs n.0 n.1 (sym last ∙ e)) in
    let base =
      last_of-All (λ c. c ≢ node) head xs n.0 (All-append_left (λ c. c ≢ node) xs ys n.1) in
    let behind = next_last m head xs ys head h.0 in
    let at_next : m.next (last_of head xs) ≢ node = (λ e.
      first_of-All (λ c. c ≢ node) ys head (All-append_right (λ c. c ≢ node) xs ys n.1) n.0
        (sym behind ∙ e)) in
    (
      insert-IsRing m (push_head m head node) head [] zs node
          (rw (← first) (push_head-Inserted m head node n.0 at_first only)) h n,
      insert-IsRing m (push_tail m head node) head zs [] node
          (rw (← last) (push_tail-Inserted m head node n.0 at_last only)) (rw (append-nil zs) h)
          (rw (append-nil zs) n),
      insert-IsRing m (push_after m (last_of head xs) node) head xs ys node
          (rw (← behind) (push_after-Inserted m (last_of head xs) node base at_next)) h n,
    )

pops-empty :
    (m : Links) (head : ℕ)
    → IsRing m head []
    → (pop_head m head ≡ (m, none)) × (pop_tail m head ≡ (m, none))
unfolding pop_head pop_tail is_empty
pops-empty m head h =
    let e = h.0.0 in
    let empty : (m.next head == head) ≡ true = ground arith in (rw empty refl, rw empty refl)

pop_head-IsRing :
    (m : Links) (head x : ℕ) (xs : List ℕ)
    → IsRing m head (x ∷ xs)
    → (m' : Links) × (pop_head m head ≡ (m', some x)) × IsRing m' head xs
pop_head-IsRing m head x xs h =
    let m' = (pop_head m head).0 in
    let (run, removed) = pop_head-Removed m head (not_only m head x xs h) in
    let first : m.next head ≡ x = h.0.0.0 in
    let second = Linked-first m x xs head h.0.1 in
    let removed' : Removed m m' head (first_of xs head) = rw (← second, ← first) removed in
    (m', run ∙ ap (λ y. (m', some y)) first, remove-IsRing m m' head [] x xs removed' h)

pop_tail-IsRing :
    (m : Links) (head : ℕ) (xs : List ℕ) (x : ℕ)
    → IsRing m head (xs ++ x ∷ [])
    → (m' : Links) × (pop_tail m head ≡ (m', some x)) × IsRing m' head xs
pop_tail-IsRing m head xs x h =
    let m' = (pop_tail m head).0 in
    let (run, removed) = pop_tail-Removed m head (not_empty xs h) in
    let (behind, before) = Linked-next m head xs x [] head h.0 in
    let last : m.prev head ≡ x =
      Linked-last m head (xs ++ x ∷ []) head h.0 ∙ last_of-snoc head xs x in
    let removed' : Removed m m' (last_of head xs) head = rw (← before, ← last) removed in
    let ring = remove-IsRing m m' head xs x [] removed' h in
    (m', run ∙ ap (λ y. (m', some y)) last, rw (append-nil xs) at ring)
  where
    not_empty : (xs : List ℕ) → IsRing m head (xs ++ x ∷ []) → (m.next head == head) ≡ false
    not_empty [] h = not_only m head x [] h
    not_empty (y ∷ xs) h = not_only m head y (xs ++ x ∷ []) h

-- Kdlist_pop_head and kdlist_pop_tail leave an empty list alone and return NULL; on any other
-- they return the first or the last node and leave a ring of the others, in their order.
pub pops_correct :
    (m : Links) (head : ℕ)
    → (IsRing m head [] → (pop_head m head ≡ (m, none)) × (pop_tail m head ≡ (m, none)))
      × ((x : ℕ) (xs : List ℕ)
          → IsRing m head (x ∷ xs)
          → (m' : Links) × (pop_head m head ≡ (m', some x)) × IsRing m' head xs)
      × ((xs : List ℕ) (x : ℕ)
          → IsRing m head (xs ++ x ∷ [])
          → (m' : Links) × (pop_tail m head ≡ (m', some x)) × IsRing m' head xs)
pops_correct m head = (pops-empty m head, pop_head-IsRing m head, pop_tail-IsRing m head)

-- Kdlist_delete of any node of a ring leaves a ring of the others, in their order.
pub kdlist_delete_correct :
    (m : Links) (head : ℕ) (xs : List ℕ) (node : ℕ) (ys : List ℕ)
    → IsRing m head (xs ++ node ∷ ys)
    → IsRing (delete m node) head (xs ++ ys)
kdlist_delete_correct m head xs node ys h =
    let (behind, before) = Linked-next m head xs node ys head h.0 in
    remove-IsRing m (delete m node) head xs node ys
      (rw (← behind, ← before) (delete-Removed m node)) h
