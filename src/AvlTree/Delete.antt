-- ===== src/AvlTree/Delete.antt =====
-- Deletion against the ordered sequence.
use data_structures.Prelude.{
  ℕ, ◌+◌, ◌≤◌, ◌≡◌, refl, ap, ◌∙◌, sym, arith, Option, some, List, ◌∷◌, ◌++◌, append-nil, inl, inr,
  Bool-cases, ℤ, is_neg, is_pos,
}
use data_structures.Compare.{IsOrder}
use data_structures.AvlTree.{
  Removal, kept, gone, returned, delete_node, delete_here, take_child, take_smallest,
}
use data_structures.AvlTree.Nodes.{Tree, leaf, node, height, balance, min_data}
use data_structures.AvlTree.Spec.{in_order, IsSorted, remove_sorted}
use data_structures.AvlTree.Balanced.{IsBalanced, balance-Balances, height-cases}
use data_structures.AvlTree.Sorted.{
  IsSorted-Sides, goes_left, goes_right, stays, neg_self, pos_self,
}

module _ {ℓ} {A : Type ℓ} where
  -- The leftmost node holds the first element of the sequence.
  pub min_data-first :
      (l : Tree A) (x : A) (r : Tree A) (h : ℕ)
      → (m : A) × (rest : List A) × (min_data (node l x r h) ≡ some m)
        × (in_order (node l x r h) ≡ m ∷ rest)
  unfolding min_data
  min_data-first leaf x r h = (x, in_order r, refl, refl)
  min_data-first (node l y r k) x r' h =
      let (m, rest, e, f) = min_data-first l y r k in
      (m, rest ++ x ∷ in_order r', e, ap (λ xs. xs ++ x ∷ in_order r') f)

module _ {ℓ} {A : Type ℓ} {cmp : A → A → ℤ} (o : IsOrder cmp) where
  -- What is left of the sequence `xs` with height `n` once a deletion returns `m`: `ys`, in a
  -- balanced tree, with NULL for none.
  pub record Removed (ys : List A) (n : ℕ) (m : Removal A) : Type ℓ where
    pub order : in_order (returned m) ≡ ys
    pub balanced : IsBalanced (returned m)
    pub least : n ≤ height (returned m) + 1
    pub most : height (returned m) ≤ n

  reordered : {ys zs : List A} {n : ℕ} {m : Removal A} → ys ≡ zs → Removed ys n m → Removed zs n m
  reordered e w = record {
    order = w.order ∙ e;
    balanced = w.balanced;
    least = w.least;
    most = w.most;
  }

  remove_first : (m : A) (rest : List A) → remove_sorted cmp m (m ∷ rest) ≡ rest
  remove_first m rest = rw (neg_self o m, pos_self o m)

  -- the node above the place of the removal
  rebalanced_left :
      (l l' : Tree A) (x : A) (r : Tree A) (h : ℕ)
      → IsBalanced (node l x r h)
      → IsBalanced l'
      → height l ≤ height l' + 1
      → height l' ≤ height l
      → (t : Tree A) × (balance (node l' x r h) ≡ some t)
        × Removed (in_order l' ++ x ∷ in_order r) h (kept t)
  rebalanced_left l l' x r h (bl, br, e, p, q) b u v =
      let (t, done, w) = balance-Balances l' x r h b br (omega arith) (omega arith) in
      let cases = height-cases w in
      (
        t,
        done,
        record {
          order = w.order;
          balanced = w.balanced;
          least = omega (arith, w.least, cases);
          most = omega (arith, w.most, cases);
        },
      )

  rebalanced_right :
      (l : Tree A) (x : A) (r r' : Tree A) (h : ℕ) (y : A)
      → IsBalanced (node l x r h)
      → IsBalanced r'
      → height r ≤ height r' + 1
      → height r' ≤ height r
      → (t : Tree A) × (balance (node l y r' h) ≡ some t)
        × Removed (in_order l ++ y ∷ in_order r') h (kept t)
  rebalanced_right l x r r' h y (bl, br, e, p, q) b u v =
      let (t, done, w) = balance-Balances l y r' h bl b (omega arith) (omega arith) in
      let cases = height-cases w in
      (
        t,
        done,
        record {
          order = w.order;
          balanced = w.balanced;
          least = omega (arith, w.least, cases);
          most = omega (arith, w.most, cases);
        },
      )

  module _ (alloc : A → Option A) (copies : (a : A) → alloc a ≡ some a) where
    take_child-Removed :
        (l : Tree A) (x : A) (r : Tree A) (k : ℕ)
        → IsBalanced (node l x r k)
        → (m : Removal A) × (take_child cmp alloc (node l x r k) ≡ some m)
          × Removed (in_order (node l x r k)) (k + 1) m
    unfolding take_child
    take_child-Removed l x r k (bl, br, e, p, q) =
        let (t, done, w) = balance-Balances l x r k bl br (omega arith) (omega arith) in
        rw (take_child, copies x, done)
          (
            kept t,
            refl,
            record {
              order = w.order;
              balanced = w.balanced;
              least = omega (arith, w.level p q);
              most = omega (arith, w.level p q);
            },
          )

    -- At the node that holds the value, provided that its right subtree can be deleted from: what
    -- is left is the two sides.
    delete_here-Removed :
        (l : Tree A) (x : A) (r : Tree A) (h : ℕ) (without : A → Option (Removal A))
        → IsBalanced (node l x r h)
        → ((d : A)
            → (m : Removal A) × (without d ≡ some m)
              × Removed (remove_sorted cmp d (in_order r)) (height r) m)
        → (m : Removal A) × (delete_here cmp alloc l r h without ≡ some m)
          × Removed (in_order l ++ in_order r) h m
    unfolding delete_here
    delete_here-Removed leaf x leaf h without b f = (
      gone,
      refl,
      record { order = refl; balanced = tt; least = omega arith; most = omega arith },
    )
    delete_here-Removed (node ll y lr k) x leaf h without (bl, br, e, p, q) f =
        let above : h ≡ k + 1 = omega arith in
        rw (above, append-nil) (take_child-Removed ll y lr k bl)
    delete_here-Removed leaf x (node rl y rr k) h without (bl, br, e, p, q) f =
        let above : h ≡ k + 1 = omega arith in rw above (take_child-Removed rl y rr k br)
    delete_here-Removed (node ll y lr k) x (node rl z rr k') h without b f =
        let (smallest, rest, found, first) = min_data-first rl z rr k' in
        let (m, run, w) = f smallest in
        let (t, done, v) =
          rebalanced_right (node ll y lr k) x (node rl z rr k') (returned m) h smallest b w.balanced
            w.least w.most in
        let left_over : in_order (returned m) ≡ rest =
          w.order ∙ ap (remove_sorted cmp smallest) first ∙ remove_first smallest rest in
        let same =
          ap (λ xs. in_order (node ll y lr k) ++ xs) (ap (◌∷◌ smallest) left_over ∙ sym first) in
        rw (found, take_smallest, copies smallest, run, done) (kept t, refl, reordered same v)

    -- `__avl_tree_delete` on a sorted and balanced tree whose data can be copied: no NULL is read,
    -- and what is returned holds the sequence with the value removed, in balance.
    pub delete_node_correct :
        (t : Tree A) (d : A)
        → IsSorted cmp (in_order t)
        → IsBalanced t
        → (m : Removal A) × (delete_node cmp alloc t d ≡ some m)
          × Removed (remove_sorted cmp d (in_order t)) (height t) m
    unfolding delete_node
    delete_node_correct leaf d s b = (
      gone,
      refl,
      record { order = refl; balanced = tt; least = omega arith; most = omega arith },
    )
    delete_node_correct (node l x r h) d s b =
        let sides = IsSorted-Sides o (in_order l) x (in_order r) s in
        elim (Bool-cases (is_neg (cmp d x))) [
          | inl below ↦
              let (m, run, w) = delete_node_correct l d sides.left b.0 in
              let (t, done, v) = rebalanced_left l (returned m) x r h b w.balanced w.least w.most in
              let moved = ap (λ xs. xs ++ x ∷ in_order r) w.order in
              rw (below, run, done)
                (
                  kept t,
                  refl,
                  reordered (moved ∙ sym (goes_left o d (in_order l) x (in_order r) s below).1) v,
                )
          | inr other ↦ rw other (elim (Bool-cases (is_pos (cmp d x))) [
            | inl above ↦
                let (m, run, w) = delete_node_correct r d sides.right b.1 in
                let (t, done, v) =
                  rebalanced_right l x r (returned m) h x b w.balanced w.least w.most in
                let moved = ap (λ xs. in_order l ++ x ∷ xs) w.order in
                rw (above, run, done)
                  (
                    kept t,
                    refl,
                    reordered (moved ∙ sym (goes_right o d (in_order l) x (in_order r) s above).1)
                        v,
                  )
            | inr same ↦
                rw (same, (stays o d (in_order l) x (in_order r) s other same).1)
                  (delete_here-Removed l x r h (λ smallest. delete_node cmp alloc r smallest) b
                    (λ smallest. delete_node_correct r smallest sides.right b.1))
          ])
        ]
