-- ===== src/BinaryTree/Levels.antt =====
-- The levels of a binary tree, from the root down and from left to right, and the order in which a
-- queue of nodes meets them.
use data_structures.Prelude.{
  ℕ, zero, suc, ◌+◌, ◌-◌, ◌≤◌, ◌≡◌, refl, ap, arith, sym, ◌∙◌, List, [], ◌∷◌, ◌++◌, inl, inr,
  Bool-cases, ltb, length, length-append, append-nil, append_assoc,
}
use data_structures.BinaryTree.{Tree, leaf, node, depth_recursive, size}

module _ {ℓ} {A : Type ℓ} where
  -- the node that a pointer leads to, if any
  abbrev pub solid : Tree A → List (Tree A)
  solid leaf = []
  solid (node l x r) = node l x r ∷ []

  -- the nodes at depth `k`
  abbrev pub level : ℕ → Tree A → List (Tree A)
  level k leaf = []
  level zero (node l x r) = node l x r ∷ []
  level (suc k) (node l x r) = level k l ++ level k r

  -- `d` levels, from depth `k` on
  abbrev pub levels : ℕ → ℕ → Tree A → List (Tree A)
  levels k zero t = []
  levels k (suc d) t = level k t ++ levels (suc k) d t

  abbrev pub root_data : List (Tree A) → List A
  root_data [] = []
  root_data (leaf ∷ ts) = root_data ts
  root_data (node l x r ∷ ts) = x ∷ root_data ts

  -- The data level by level, down to the depth of the tree.
  abbrev pub level_order : Tree A → List A
  level_order t = root_data (levels 0 (depth_recursive t) t)

  abbrev pub children : Tree A → List (Tree A)
  children leaf = []
  children (node l x r) = solid l ++ solid r

  abbrev pub grand : List (Tree A) → List (Tree A)
  grand [] = []
  grand (t ∷ ts) = children t ++ grand ts

  -- the order of a queue: the first leaves, and its children line up
  abbrev pub lined : ℕ → List (Tree A) → List (Tree A)
  lined zero ts = []
  lined (suc n) [] = []
  lined (suc n) (t ∷ ts) = t ∷ lined n (ts ++ children t)

  abbrev pub forest : List (Tree A) → ℕ
  forest [] = 0
  forest (t ∷ ts) = size t + forest ts

  -- no pointer of the list is NULL
  abbrev pub IsSolid : List (Tree A) → Type 0
  IsSolid [] = Unit
  IsSolid (leaf ∷ ts) = ⊥
  IsSolid (node l x r ∷ ts) = IsSolid ts

  pub append-IsSolid : (ts us : List (Tree A)) → IsSolid ts → IsSolid us → IsSolid (ts ++ us)
  append-IsSolid [] us s r = r
  append-IsSolid (leaf ∷ ts) us s r = elim s [ ]
  append-IsSolid (node l x r ∷ ts) us s q = append-IsSolid ts us s q

  pub solid-IsSolid : (t : Tree A) → IsSolid (solid t)
  solid-IsSolid leaf = tt
  solid-IsSolid (node l x r) = tt

  pub children-IsSolid : (t : Tree A) → IsSolid (children t)
  children-IsSolid leaf = tt
  children-IsSolid (node l x r) =
      append-IsSolid (solid l) (solid r) (solid-IsSolid l) (solid-IsSolid r)

  pub level-IsSolid : (k : ℕ) (t : Tree A) → IsSolid (level k t)
  level-IsSolid k leaf = tt
  level-IsSolid zero (node l x r) = tt
  level-IsSolid (suc k) (node l x r) =
      append-IsSolid (level k l) (level k r) (level-IsSolid k l) (level-IsSolid k r)

  pub forest-append : (ts us : List (Tree A)) → forest (ts ++ us) ≡ forest ts + forest us
  forest-append [] us = omega arith
  forest-append (t ∷ ts) us = omega (arith, forest-append ts us)

  pub forest-solid : (t : Tree A) → forest (solid t) ≡ size t
  forest-solid leaf = refl
  forest-solid (node l x r) = omega arith

  pub forest-children :
      (l : Tree A) (x : A) (r : Tree A) → forest (children (node l x r)) ≡ size l + size r
  forest-children l x r =
      rw (forest-append (solid l) (solid r), forest-solid l, forest-solid r) refl

  pub forest-grand : (ts : List (Tree A)) → IsSolid ts → forest (grand ts) + length ts ≡ forest ts
  forest-grand [] s = refl
  forest-grand (leaf ∷ ts) s = elim s [ ]
  forest-grand (node l x r ∷ ts) s = omega (
    arith,
    forest-append (children (node l x r)) (grand ts),
    forest-children l x r,
    forest-grand ts s,
  )

  grand-append : (ts us : List (Tree A)) → grand (ts ++ us) ≡ grand ts ++ grand us
  grand-append [] us = refl
  grand-append (t ∷ ts) us =
      rw (grand-append ts us) (sym (append_assoc (children t) (grand ts) (grand us)))

  level-zero : (t : Tree A) → level 0 t ≡ solid t
  level-zero leaf = refl
  level-zero (node l x r) = refl

  pub grand-level : (k : ℕ) (t : Tree A) → grand (level k t) ≡ level (suc k) t
  grand-level k leaf = refl
  grand-level zero (node l x r) = rw (level-zero l, level-zero r) (append-nil (solid l ++ solid r))
  grand-level (suc k) (node l x r) =
      rw (grand-append (level k l) (level k r), grand-level k l, grand-level k r) refl

  pub level-deep : (k : ℕ) (t : Tree A) → depth_recursive t ≤ k → level k t ≡ []
  level-deep k leaf h = refl
  level-deep zero (node l x r) h = absurd (omega arith)
  level-deep (suc k) (node l x r) h =
      rw (level-deep k l (ground arith), level-deep k r (ground arith)) refl

  lined-level :
      (m : ℕ) (ts us : List (Tree A)) (n : ℕ)
      → m ≡ length ts + n
      → lined m (ts ++ us) ≡ ts ++ lined n (us ++ grand ts)
  lined-level m [] us n e = let same : m ≡ n = omega arith in rw (same, append-nil us) refl
  lined-level zero (t ∷ ts) us n e = absurd (omega arith)
  lined-level (suc m) (t ∷ ts) us n e = ap (◌∷◌ t) (
      rw
        (
          append_assoc ts us (children t),
          lined-level m ts (us ++ children t) n (omega arith),
          append_assoc us (children t) (grand ts),
        )
        refl)

  lined-nil : (n : ℕ) → lined n [] ≡ []
  lined-nil zero = refl
  lined-nil (suc n) = refl

  pub length-solid : (ts : List (Tree A)) → IsSolid ts → length ts ≤ forest ts
  length-solid ts s = omega (arith, forest-grand ts s)

  lined-levels :
      (d k n : ℕ) (t : Tree A)
      → depth_recursive t ≤ k + d
      → forest (level k t) ≤ n
      → lined n (level k t) ≡ levels k d t
  lined-levels zero k n t deep f = rw (level-deep k t (omega arith)) (lined-nil n)
  lined-levels (suc d) k n t deep f =
      let s = level-IsSolid k t in
      let few = length-solid (level k t) s in
      let fall : forest (level (suc k) t) + length (level k t) ≡ forest (level k t) =
        rw (← grand-level k t) (forest-grand (level k t) s) in
      let split = lined-level n (level k t) [] (n - length (level k t)) (omega arith) in
      let rest = lined-levels d (suc k) (n - length (level k t)) t (omega arith) (omega arith) in
      ap (lined n) (sym (append-nil (level k t))) ∙ split ∙ rw (grand-level k t, rest) refl

  -- A queue that starts from the root meets the nodes level by level.
  pub lined-level_order :
      (n : ℕ) (t : Tree A) → size t ≤ n → lined n (solid t) ≡ levels 0 (depth_recursive t) t
  lined-level_order n t h =
      rw (← level-zero t)
        (lined-levels (depth_recursive t) 0 n t (omega arith) (rw (level-zero t, forest-solid t) h))

  pub level-shallow : (k : ℕ) (t : Tree A) → suc k ≤ depth_recursive t → 1 ≤ length (level k t)
  level-shallow k leaf h = absurd (omega arith)
  level-shallow zero (node l x r) h = omega arith
  level-shallow (suc k) (node l x r) h =
      let count = length-append (level k l) (level k r) in
      elim (Bool-cases (ltb (depth_recursive l) (depth_recursive r))) [
        | inl less ↦
            let deep : suc k ≤ depth_recursive r = ground arith in
            omega (arith, level-shallow k r deep)
        | inr other ↦
            let deep : suc k ≤ depth_recursive l = ground arith in
            omega (arith, level-shallow k l deep)
      ]
