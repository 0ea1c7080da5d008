-- ===== src/AvlTree/Insert.antt =====
-- Insertion and lookup against the ordered sequence.
use data_structures.Prelude.{
  ◌+◌, ◌≤◌, ◌≡◌, refl, ◌∙◌, sym, arith, true, Option, some, inl, inr, Bool-cases, ℤ, is_neg, is_pos,
}
use data_structures.Compare.{IsOrder}
use data_structures.AvlTree.{insert_node, lookup_node}
use data_structures.AvlTree.Nodes.{Tree, leaf, node, height}
use data_structures.AvlTree.Spec.{in_order, IsSorted, insert_sorted, contains}
use data_structures.AvlTree.Balanced.{IsBalanced, balance-Balances, height-cases}
use data_structures.AvlTree.Sorted.{IsSorted-Sides, goes_left, goes_right, stays}

module _ {ℓ} {A : Type ℓ} {cmp : A → A → ℤ} (o : IsOrder cmp) where
  -- On a sorted tree a lookup says whether an element compares equal to the value.
  pub lookup_node-contains :
      (t : Tree A) (d : A)
      → IsSorted cmp (in_order t)
      → lookup_node cmp t d ≡ contains cmp d (in_order t)
  unfolding lookup_node
  lookup_node-contains leaf d s = refl
  lookup_node-contains (node l x r h) d s =
      let sides = IsSorted-Sides o (in_order l) x (in_order r) s in
      elim (Bool-cases (is_neg (cmp d x))) [
        | inl below ↦
            rw (below, lookup_node-contains l d sides.left)
              (sym (goes_left o d (in_order l) x (in_order r) s below).2)
        | inr other ↦ rw other (elim (Bool-cases (is_pos (cmp d x))) [
          | inl above ↦
              rw (above, lookup_node-contains r d sides.right)
                (sym (goes_right o d (in_order l) x (in_order r) s above).2)
          | inr same ↦ rw same (sym (stays o d (in_order l) x (in_order r) s other same).2)
        ])
      ]

  -- What a successful insertion of `d` into `t` returns.
  pub record Inserted (t : Tree A) (d : A) (t' : Tree A) : Type ℓ where
    pub order : in_order t' ≡ insert_sorted cmp d (in_order t)
    pub balanced : IsBalanced t'
    pub least : height t ≤ height t'
    pub most : height t' ≤ height t + 1

  module _ (alloc : A → Option A) (d : A) (copies : alloc d ≡ some d) where
    insert_node-leaf :
        (t' : Tree A) × (insert_node cmp alloc leaf d ≡ some (t', true)) × Inserted leaf d t'
    unfolding insert_node
    insert_node-leaf =
        rw (insert_node, copies)
          (
            node leaf d leaf 1,
            refl,
            record {
              order = refl;
              balanced = (tt, tt, omega arith, omega arith, omega arith);
              least = omega arith;
              most = omega arith;
            },
          )

    -- `__avl_tree_insert` of a value that is copied, into a sorted and balanced tree: no NULL is
    -- read, and the tree returned holds the sequence with the value inserted, in balance.
    pub insert_node_correct :
        (t : Tree A)
        → IsSorted cmp (in_order t)
        → IsBalanced t
        → (t' : Tree A) × (insert_node cmp alloc t d ≡ some (t', true)) × Inserted t d t'
    unfolding insert_node
    insert_node_correct leaf s b = insert_node-leaf
    insert_node_correct (node l x r h) s (bl, br, e, p, q) =
        let sides = IsSorted-Sides o (in_order l) x (in_order r) s in
        elim (Bool-cases (is_neg (cmp d x))) [
          | inl below ↦
              let (l', run, i) = insert_node_correct l sides.left bl in
              let (t', done, w) =
                balance-Balances l' x r h i.balanced br (omega (arith, i.most))
                  (omega (arith, i.least)) in
              let grown = height-cases w in
              rw (below, run, done)
                (
                  t',
                  refl,
                  record {
                    order =
                        w.order
                        ∙ rw i.order (sym (goes_left o d (in_order l) x (in_order r) s below).0);
                    balanced = w.balanced;
                    least = omega (arith, grown, w.least, i.least, i.most);
                    most = omega (arith, w.most, i.least, i.most);
                  },
                )
          | inr other ↦ rw other (elim (Bool-cases (is_pos (cmp d x))) [
            | inl above ↦
                let (r', run, i) = insert_node_correct r sides.right br in
                let (t', done, w) =
                  balance-Balances l x r' h bl i.balanced (omega (arith, i.least))
                    (omega (arith, i.most)) in
                let grown = height-cases w in
                rw (above, run, done)
                  (
                    t',
                    refl,
                    record {
                      order =
                          w.order
                          ∙ rw i.order (sym (goes_right o d (in_order l) x (in_order r) s above).0);
                      balanced = w.balanced;
                      least = omega (arith, grown, w.least, i.least, i.most);
                      most = omega (arith, w.most, i.least, i.most);
                    },
                  )
            | inr same ↦ rw same (
              node l x r h,
              refl,
              record {
                order = sym (stays o d (in_order l) x (in_order r) s other same).0;
                balanced = (bl, br, e, p, q);
                least = omega arith;
                most = omega arith;
              },
            )
          ])
        ]
