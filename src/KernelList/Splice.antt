-- ===== src/KernelList/Splice.antt =====
-- Linking a node in between two neighbours, in any place of a ring.
use data_structures.Prelude.{
  ℕ, ◌≡◌, ◌≢◌, refl, sym, ◌∙◌, arith, List, [], ◌∷◌, ◌++◌, All, All-append, All-append_left,
  All-append_right, All-mono, if◌then◌else◌, ◌==◌,
}
use data_structures.KernelList.{Links}
use data_structures.KernelList.Rings.{
  Linked, Distinct, IsRing, last_of, first_of, last_of-All, first_of-All, Linked-frame,
}

-- `node` stands between `a` and `b`, and no other link has changed.
pub record Inserted (m m' : Links) (a node b : ℕ) : Type 0 where
  pub to_next : (c : ℕ) → m'.next c ≡ (if c == a then node else if c == node then b else m.next c)
  pub to_prev : (c : ℕ) → m'.prev c ≡ (if c == b then node else if c == node then a else m.prev c)

-- `a` and `b` are linked, and no other link has changed.
pub record Removed (m m' : Links) (a b : ℕ) : Type 0 where
  pub to_next : (c : ℕ) → m'.next c ≡ (if c == a then b else m.next c)
  pub to_prev : (c : ℕ) → m'.prev c ≡ (if c == b then a else m.prev c)

pub pick_same : (c a x y : ℕ) → c ≡ a → (if c == a then x else y) ≡ x
pick_same c a x y e = ground arith

pub pick_other : (c a x y : ℕ) → c ≢ a → (if c == a then x else y) ≡ y
pick_other c a x y e = ground arith

module _ (m m' : Links) (a node b : ℕ) (i : Inserted m m' a node b) (a-fresh : a ≢ node)
    (b-fresh : b ≢ node) where
  next_other : (c : ℕ) → c ≢ a → c ≢ node → m'.next c ≡ m.next c
  next_other c p q =
      i.to_next c
      ∙ pick_other c a node (if c == node then b else m.next c) p
      ∙ pick_other c node b (m.next c) q

  prev_other : (c : ℕ) → c ≢ b → c ≢ node → m'.prev c ≡ m.prev c
  prev_other c p q =
      i.to_prev c
      ∙ pick_other c b node (if c == node then a else m.prev c) p
      ∙ pick_other c node a (m.prev c) q

  next_left : m'.next a ≡ node
  next_left = i.to_next a ∙ pick_same a a node (if a == node then b else m.next a) refl

  next_node : m'.next node ≡ b
  next_node =
      i.to_next node
      ∙ pick_other node a node (if node == node then b else m.next node) (λ e. a-fresh (sym e))
      ∙ pick_same node node b (m.next node) refl

  prev_right : m'.prev b ≡ node
  prev_right = i.to_prev b ∙ pick_same b b node (if b == node then a else m.prev b) refl

  prev_node : m'.prev node ≡ a
  prev_node =
      i.to_prev node
      ∙ pick_other node b node (if node == node then a else m.prev node) (λ e. b-fresh (sym e))
      ∙ pick_same node node a (m.prev node) refl

  -- behind the place of insertion
  after_Linked :
      (s : ℕ) (ys : List ℕ) (e : ℕ)
      → s ≢ a
      → s ≢ node
      → e ≢ b
      → e ≢ node
      → All (λ c. c ≢ a) ys
      → All (λ c. c ≢ b) ys
      → All (λ c. c ≢ node) ys
      → Linked m s ys e
      → Linked m' s ys e
  after_Linked s ys e sa sn eb en ya yb yn h =
      Linked-frame m m' s ys e (next_other s sa sn) (both ys ya yb yn) (prev_other e eb en) h
    where
      both :
          (ys : List ℕ)
          → All (λ c. c ≢ a) ys
          → All (λ c. c ≢ b) ys
          → All (λ c. c ≢ node) ys
          → All (λ c. (m'.next c ≡ m.next c) × (m'.prev c ≡ m.prev c)) ys
      both [] p q r = tt
      both (y ∷ ys) (p, ps) (q, qs) (r, rs) =
          ((next_other y p r, prev_other y q r), both ys ps qs rs)

  here_Linked :
      (ys : List ℕ) (e : ℕ)
      → first_of ys e ≡ b
      → Distinct (a ∷ ys)
      → All (λ c. c ≢ e) ys
      → All (λ c. c ≢ node) ys
      → e ≢ node
      → Linked m a ys e
      → Linked m' a (node ∷ ys) e
  here_Linked [] e p d y n en h = ((next_left, prev_node), (next_node ∙ sym p, rw p prev_right))
  here_Linked (y ∷ ys) e p (da, (dy, ds)) (ye, ys_e) (yn, ys_n) en (h, rest) = (
    (next_left, prev_node),
    (
      (next_node ∙ sym p, rw p prev_right),
      after_Linked y ys e da.0 yn (λ q. ye (p ∙ sym q)) en da.1
          (All-mono (λ c. c ≢ y) (λ c ne eq. ne (eq ∙ sym p)) ys dy) ys_n rest,
    ),
  )

  -- in front of it
  insert_Linked :
      (s : ℕ) (xs ys : List ℕ) (e : ℕ)
      → last_of s xs ≡ a
      → first_of ys e ≡ b
      → Distinct (s ∷ xs ++ ys)
      → All (λ c. c ≢ e) (xs ++ ys)
      → s ≢ node
      → All (λ c. c ≢ node) (xs ++ ys)
      → e ≢ node
      → Linked m s (xs ++ ys) e
      → Linked m' s (xs ++ node ∷ ys) e
  insert_Linked s [] ys e p q d f sn n en h =
      let d' : Distinct (a ∷ ys) = rw (← p) d in
      let h' : Linked m a ys e = rw (← p) h in rw p (here_Linked ys e q d' f n en h')
  insert_Linked s (x ∷ xs) ys e p q (ds, d) (xe, f) sn (xn, n) en (h, rest) =
      let last = last_of-All (λ c. c ≢ s) x xs ds.0 (All-append_left (λ c. c ≢ s) xs ys ds.1) in
      let first =
        first_of-All (λ c. c ≢ x) ys e (All-append_right (λ c. c ≢ x) xs ys d.0)
          (λ eq. xe (sym eq)) in
      (
        (
          next_other s (λ eq. last (p ∙ sym eq)) sn ∙ h.0,
          prev_other x (λ eq. first (q ∙ sym eq)) xn ∙ h.1,
        ),
        insert_Linked x xs ys e p q d f xn n en rest,
      )

pub Distinct-insert :
    (xs : List ℕ) (node : ℕ) (ys : List ℕ)
    → Distinct (xs ++ ys)
    → All (λ c. c ≢ node) (xs ++ ys)
    → Distinct (xs ++ node ∷ ys)
Distinct-insert [] node ys d n = (n, d)
Distinct-insert (x ∷ xs) node ys (dx, d) (xn, n) = (
  All-append (λ c. c ≢ x) xs (node ∷ ys) (All-append_left (λ c. c ≢ x) xs ys dx)
      ((λ eq. xn (sym eq)), All-append_right (λ c. c ≢ x) xs ys dx),
  Distinct-insert xs node ys d n,
)

-- A node that is not in the ring is inserted behind the nodes `xs` of it.
pub insert-IsRing :
    (m m' : Links) (head : ℕ) (xs ys : List ℕ) (node : ℕ)
    → Inserted m m' (last_of head xs) node (first_of ys head)
    → IsRing m head (xs ++ ys)
    → All (λ c. c ≢ node) (head ∷ xs ++ ys)
    → IsRing m' head (xs ++ node ∷ ys)
insert-IsRing m m' head xs ys node i (h, (dh, d)) (hn, n) =
    let left = last_of-All (λ c. c ≢ node) head xs hn (All-append_left (λ c. c ≢ node) xs ys n) in
    let right =
      first_of-All (λ c. c ≢ node) ys head (All-append_right (λ c. c ≢ node) xs ys n) hn in
    (
      insert_Linked m m' (last_of head xs) node (first_of ys head) i left right head xs ys head refl
          refl (dh, d) dh hn n hn h,
      (
        All-append (λ c. c ≢ head) xs (node ∷ ys) (All-append_left (λ c. c ≢ head) xs ys dh)
            ((λ eq. hn (sym eq)), All-append_right (λ c. c ≢ head) xs ys dh),
        Distinct-insert xs node ys d n,
      ),
    )
