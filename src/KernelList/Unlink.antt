-- ===== src/KernelList/Unlink.antt =====
-- Unlinking a node from between its neighbours, in any place of a ring.
use data_structures.Prelude.{
  ℕ, ◌≡◌, ◌≢◌, refl, sym, ◌∙◌, List, [], ◌∷◌, ◌++◌, All, All-append_left, All-append_right,
  All-mono,
}
use data_structures.KernelList.{Links}
use data_structures.KernelList.Rings.{
  Linked, Distinct, IsRing, last_of, first_of, last_of-All, first_of-All, Linked-frame,
}
use data_structures.KernelList.Splice.{Removed, pick_same, pick_other}

module _ (m m' : Links) (a b : ℕ) (r : Removed m m' a b) where
  next_other : (c : ℕ) → c ≢ a → m'.next c ≡ m.next c
  next_other c p = r.to_next c ∙ pick_other c a b (m.next c) p

  prev_other : (c : ℕ) → c ≢ b → m'.prev c ≡ m.prev c
  prev_other c p = r.to_prev c ∙ pick_other c b a (m.prev c) p

  next_left : m'.next a ≡ b
  next_left = r.to_next a ∙ pick_same a a b (m.next a) refl

  prev_right : m'.prev b ≡ a
  prev_right = r.to_prev b ∙ pick_same b b a (m.prev b) refl

  after_Linked :
      (s : ℕ) (ys : List ℕ) (e : ℕ)
      → s ≢ a
      → e ≢ b
      → All (λ c. c ≢ a) ys
      → All (λ c. c ≢ b) ys
      → Linked m s ys e
      → Linked m' s ys e
  after_Linked s ys e sa eb ya yb h =
      Linked-frame m m' s ys e (next_other s sa) (both ys ya yb) (prev_other e eb) h
    where
      both :
          (ys : List ℕ)
          → All (λ c. c ≢ a) ys
          → All (λ c. c ≢ b) ys
          → All (λ c. (m'.next c ≡ m.next c) × (m'.prev c ≡ m.prev c)) ys
      both [] p q = tt
      both (y ∷ ys) (p, ps) (q, qs) = ((next_other y p, prev_other y q), both ys ps qs)

  here_Linked :
      (node : ℕ) (ys : List ℕ) (e : ℕ)
      → first_of ys e ≡ b
      → All (λ c. c ≢ a) ys
      → Distinct ys
      → All (λ c. c ≢ e) ys
      → Linked m node ys e
      → Linked m' a ys e
  here_Linked node [] e p da d f h = (next_left ∙ sym p, rw p prev_right)
  here_Linked node (y ∷ ys) e p (ya, da) (dy, ds) (ye, f) (h, rest) = (
    (next_left ∙ sym p, rw p prev_right),
    after_Linked y ys e ya (λ q. ye (p ∙ sym q)) da
        (All-mono (λ c. c ≢ y) (λ c ne eq. ne (eq ∙ sym p)) ys dy) rest,
  )

  remove_Linked :
      (s : ℕ) (xs : List ℕ) (node : ℕ) (ys : List ℕ) (e : ℕ)
      → last_of s xs ≡ a
      → first_of ys e ≡ b
      → Distinct (s ∷ xs ++ node ∷ ys)
      → All (λ c. c ≢ e) (xs ++ node ∷ ys)
      → Linked m s (xs ++ node ∷ ys) e
      → Linked m' s (xs ++ ys) e
  remove_Linked s [] node ys e p q (ds, (dn, d)) f (h, rest) =
      let away : All (λ c. c ≢ a) ys = rw (← p) ds.1 in
      rw p (here_Linked node ys e q away d f.1 rest)
  remove_Linked s (x ∷ xs) node ys e p q (ds, d) (xe, f) (h, rest) =
      let last =
        last_of-All (λ c. c ≢ s) x xs ds.0 (All-append_left (λ c. c ≢ s) xs (node ∷ ys) ds.1) in
      let first =
        first_of-All (λ c. c ≢ x) ys e (All-append_right (λ c. c ≢ x) xs (node ∷ ys) d.0).1
          (λ eq. xe (sym eq)) in
      (
        (
          next_other s (λ eq. last (p ∙ sym eq)) ∙ h.0,
          prev_other x (λ eq. first (q ∙ sym eq)) ∙ h.1,
        ),
        remove_Linked x xs node ys e p q d f rest,
      )

pub All-drop :
    (P : ℕ → Type 0) (xs : List ℕ) (node : ℕ) (ys : List ℕ)
    → All P (xs ++ node ∷ ys)
    → All P (xs ++ ys)
All-drop P [] node ys h = h.1
All-drop P (x ∷ xs) node ys (p, h) = (p, All-drop P xs node ys h)

pub Distinct-drop :
    (xs : List ℕ) (node : ℕ) (ys : List ℕ) → Distinct (xs ++ node ∷ ys) → Distinct (xs ++ ys)
Distinct-drop [] node ys d = d.1
Distinct-drop (x ∷ xs) node ys (dx, d) =
    (All-drop (λ c. c ≢ x) xs node ys dx, Distinct-drop xs node ys d)

-- The other nodes of the ring stay, in their order.
pub remove-IsRing :
    (m m' : Links) (head : ℕ) (xs : List ℕ) (node : ℕ) (ys : List ℕ)
    → Removed m m' (last_of head xs) (first_of ys head)
    → IsRing m head (xs ++ node ∷ ys)
    → IsRing m' head (xs ++ ys)
remove-IsRing m m' head xs node ys r (h, (dh, d)) = (
  remove_Linked m m' (last_of head xs) (first_of ys head) r head xs node ys head refl refl (dh, d)
      dh h,
  (All-drop (λ c. c ≢ head) xs node ys dh, Distinct-drop xs node ys d),
)
