-- ===== src/BinaryTree/Halves.antt =====
-- `binary_tree_divide_two_halves` tells whether some subtree has half of the nodes.
use data_structures.Prelude.{
  ℕ, zero, suc, ◌-◌, ◌≤◌, ◌<◌, ◌≡◌, refl, ap, arith, sym, ◌∙◌, Bool, true, false, some, List, [],
  ◌∷◌, ◌++◌, inl, inr, ◌==◌, ◌||◌, Bool-cases, if◌then◌else◌,
}
use data_structures.Queue.Interface.{Calls, IsQueue}
use data_structures.BinaryTree.{Tree, leaf, node, size, depth_recursive}
use data_structures.BinaryTree.Levels.{level, levels}
use data_structures.BinaryTree.Queued.{half_data, returned, divide_two_halves}
use data_structures.BinaryTree.Walk.{Lined-root, visit_all, loop-level_order}

module _ {ℓ} {A : Type ℓ} (p : Tree A → Bool) where
  abbrev any : List (Tree A) → Bool
  any [] = false
  any (t ∷ ts) = p t || any ts

  -- some node of the tree has the property, with the tree below it
  abbrev pub any_node : Tree A → Bool
  any_node leaf = false
  any_node (node l x r) = p (node l x r) || (any_node l || any_node r)

  or_assoc : (a b c : Bool) → ((a || b) || c) ≡ (a || (b || c))
  or_assoc true b c = refl
  or_assoc false b c = refl

  or_swap : (a b c d : Bool) → ((a || b) || (c || d)) ≡ ((a || c) || (b || d))
  or_swap true b c d = refl
  or_swap false true true d = refl
  or_swap false true false d = refl
  or_swap false false c d = refl

  any-append : (ts us : List (Tree A)) → any (ts ++ us) ≡ (any ts || any us)
  any-append [] us = refl
  any-append (t ∷ ts) us = rw (any-append ts us) (sym (or_assoc (p t) (any ts) (any us)))

  levels-leaf : (k d : ℕ) → levels {A = A} k d leaf ≡ []
  levels-leaf k zero = refl
  levels-leaf k (suc d) = levels-leaf (suc k) d

  any-levels :
      (d k : ℕ) (l : Tree A) (x : A) (r : Tree A)
      → any (levels (suc k) d (node l x r)) ≡ (any (levels k d l) || any (levels k d r))
  any-levels zero k l x r = refl
  any-levels (suc d) k l x r =
      rw
        (
          any-append (level k l ++ level k r) (levels (suc (suc k)) d (node l x r)),
          any-append (level k l) (level k r),
          any-levels d (suc k) l x r,
          any-append (level k l) (levels (suc k) d l),
          any-append (level k r) (levels (suc k) d r),
        )
        (or_swap (any (level k l)) (any (level k r)) (any (levels (suc k) d l))
          (any (levels (suc k) d r)))

  pub any-level_order :
      (d : ℕ) (t : Tree A) → depth_recursive t ≤ d → any (levels 0 d t) ≡ any_node t
  any-level_order d leaf h = rw (levels-leaf 0 d) refl
  any-level_order zero (node l x r) h = absurd (omega arith)
  any-level_order (suc d) (node l x r) h =
      rw
        (
          any-levels d 0 l x r,
          any-level_order d l (ground arith),
          any-level_order d r (ground arith),
        )
        refl

module _ {ℓ} {A : Type ℓ} where
  -- The tree below a node has half of `total` nodes.
  abbrev pub is_half : ℕ → Tree A → Bool
  is_half total leaf = false
  is_half total (node l x r) = size (node l x r) == total - size (node l x r)

  visit-half :
      (total : ℕ) (l : Tree A) (x : A) (r : Tree A)
      → half_data total false l x r ≡ (if is_half total (node l x r) then inl true else inr false)
  unfolding half_data
  visit-half total l x r = refl

  halves-visit_all :
      (total : ℕ) (ts : List (Tree A))
      → returned (visit_all (half_data total) ts false) ≡ any (is_half total) ts
  halves-visit_all total [] = refl
  halves-visit_all total (leaf ∷ ts) = halves-visit_all total ts
  halves-visit_all total (node l x r ∷ ts) = elim (Bool-cases (is_half total (node l x r))) [
    | inl half ↦ rw (visit_all, visit-half total l x r, half) refl
    | inr other ↦ rw (visit_all, visit-half total l x r, other) (halves-visit_all total ts)
  ]

module _ {ℓ} {A Q : Type ℓ} (calls : Calls (Tree A) Q) (law : IsQueue calls) where
  -- With a queue that is empty and has room for all nodes, and with fuel for more rounds than
  -- there are nodes, binary_tree_divide_two_halves tells whether the tree below some node has
  -- as many nodes as are left without it.
  pub divide_two_halves_correct :
      (n : ℕ) (t : Tree A) (queue : Q)
      → law.Good queue
      → (law.lane queue).waiting ≡ []
      → size t ≤ (law.lane queue).room
      → size t < n
      → divide_two_halves calls n (some queue) t ≡ some (any_node (is_half (size t)) t)
  unfolding divide_two_halves
  divide_two_halves_correct n leaf queue g e room f = refl
  divide_two_halves_correct n (node l x r) queue g e room f =
      let (queue', run, first) = Lined-root calls law l x r queue g e room in
      let total = size (node l x r) in
      rw (run, loop-level_order calls law (half_data total) n l x r queue' false first f)
        (ap some (
          halves-visit_all total (levels 0 (depth_recursive (node l x r)) (node l x r))
          ∙ any-level_order (is_half total) (depth_recursive (node l x r)) (node l x r)
              (omega arith)))
