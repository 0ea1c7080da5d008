-- ===== src/AvlTree/Api.antt =====
-- The public functions on an entry that holds a sorted and balanced tree, and how they fail.
use data_structures.Prelude.{
  ℕ, ◌≡◌, ◌≢◌, refl, ap, ◌∙◌, sym, true, false, Option, none, some, List, [], inl, inr, Bool-cases,
  ℤ, pos, negsuc, is_neg, is_pos, if◌then◌else◌,
}
use data_structures.Compare.{IsOrder}
use data_structures.AvlTree.{Removal, kept, gone, dataless, returned, insert_node, lookup_node}
use data_structures.AvlTree.Nodes.{Tree, leaf, node}
use data_structures.AvlTree.Spec.{in_order, IsSorted, insert_sorted, remove_sorted, contains}
use data_structures.AvlTree.Balanced.{IsBalanced}
use data_structures.AvlTree.Sorted.{insert_sorted-IsSorted, remove_sorted-IsSorted}
use data_structures.AvlTree.Insert.{insert_node_correct, lookup_node-contains}
use data_structures.AvlTree.Delete.{delete_node_correct}
use data_structures.AvlTree.Entry.{Entry, Root, attached, insert, delete, lookup, removed}

module _ {ℓ} {A : Type ℓ} (alloc : A → Option A) (cmp : A → A → ℤ) where
  -- an entry with all its callbacks
  abbrev pub entry_at : Root A → Entry A
  entry_at root = record {
    root = root;
    alloc = some alloc;
    free = true;
    cmp = some cmp;
    print = true;
  }

  -- The entry holds the sequence `xs` in a sorted and balanced tree.
  pub record Holds (xs : List A) (entry : Option (Entry A)) : Type ℓ where
    pub tree : Tree A
    pub at : entry ≡ some (entry_at (attached tree))
    pub order : in_order tree ≡ xs
    pub sorted : IsSorted cmp xs
    pub balanced : IsBalanced tree

  -- What the deletion makes of the answer from below, if something is left.
  removed-Holds :
      (t : Tree A) (m : Removal A) (ys : List A)
      → in_order (returned m) ≡ ys
      → IsBalanced (returned m)
      → IsSorted cmp ys
      → ys ≢ []
      → let (entry', status) = removed (entry_at (attached t)) t m in
        (entry'' : Option (Entry A)) × (◌≡◌ {A = Option (Option (Entry A) × ℤ)}
          (some (some entry', status))
          (some (entry'', pos 0)))
        × Holds ys entry''
  removed-Holds t (kept t') ys e b s left = (
    some (entry_at (attached t')),
    refl,
    record { tree = t'; at = refl; order = e; sorted = s; balanced = b },
  )
  removed-Holds t gone ys e b s left = absurd (left (sym e))
  removed-Holds t (dataless l r h) ys e b s left = absurd (left (sym e))

  -- `avl_tree_lookup` on an entry that holds a sequence says whether an element of it compares
  -- equal to the value.
  pub avl_lookup_correct :
      (o : IsOrder cmp) (xs : List A) (entry : Option (Entry A)) (d : A)
      → Holds xs entry
      → lookup entry (some d) ≡ some (contains cmp d xs)
  unfolding lookup
  avl_lookup_correct o xs entry d h =
      rw (h.at, lookup_node-contains o h.tree d (rw h.order h.sorted), h.order)

  module _ (o : IsOrder cmp) (copies : (a : A) → alloc a ≡ some a) where
    -- On an AVL entry that holds a sequence, in a sorted and balanced tree, with a comparison
    -- that orders and a copy that succeeds, avl_tree_insert returns 0, and the entry then
    -- holds the sequence with the value inserted in its place, or as it was if an equal value
    -- is there.
    pub avl_insert_correct :
        (xs : List A) (entry : Option (Entry A)) (d : A)
        → Holds xs entry
        → (entry' : Option (Entry A)) × (insert entry (some d) ≡ some (entry', pos 0))
          × Holds (insert_sorted cmp d xs) entry'
    unfolding insert
    avl_insert_correct xs entry d h =
        let s : IsSorted cmp (in_order h.tree) = rw h.order h.sorted in
        let (t, run, i) = insert_node_correct o alloc d (copies d) h.tree s h.balanced in
        rw (h.at, run)
          (
            some (entry_at (attached t)),
            refl,
            record {
              tree = t;
              at = refl;
              order = i.order ∙ ap (insert_sorted cmp d) h.order;
              sorted = insert_sorted-IsSorted o d xs h.sorted;
              balanced = i.balanced;
            },
          )

    -- On such an entry, if something is left of the sequence without the value,
    -- avl_tree_delete returns 0, and the entry then holds what is left, in a sorted and
    -- balanced tree.
    pub avl_delete_correct :
        (xs : List A) (entry : Option (Entry A)) (d : A)
        → Holds xs entry
        → remove_sorted cmp d xs ≢ []
        → (entry' : Option (Entry A)) × (delete entry (some d) ≡ some (entry', pos 0))
          × Holds (remove_sorted cmp d xs) entry'
    unfolding delete
    avl_delete_correct xs entry d h left =
        let s : IsSorted cmp (in_order h.tree) = rw h.order h.sorted in
        let (m, run, w) = delete_node_correct o alloc copies h.tree d s h.balanced in
        let left_over = w.order ∙ ap (remove_sorted cmp d) h.order in
        rw (h.at, run)
          (removed-Holds h.tree m _ left_over w.balanced (remove_sorted-IsSorted o d xs h.sorted)
            left)

module _ {ℓ} {A : Type ℓ} (alloc : A → Option A) (cmp : A → A → ℤ) (d : A)
    (fails : alloc d ≡ none) where
  insert_node-lost :
      (t : Tree A)
      → lookup_node cmp t d ≡ false
      → (t' : Tree A) × (insert_node cmp alloc t d ≡ some (t', false))
  unfolding insert_node lookup_node
  insert_node-lost leaf absent = rw (insert_node, fails) (leaf, refl)
  insert_node-lost (node l x r h) absent = elim (Bool-cases (is_neg (cmp d x))) [
    | inl below ↦
        let (l', run) = insert_node-lost l (rw below at absent) in
        rw (below, run) (node leaf x r h, refl)
    | inr other ↦ elim (Bool-cases (is_pos (cmp d x))) [
      | inl above ↦
          let (r', run) = insert_node-lost r (rw (other, above) at absent) in
          rw (other, above, run) (node l x leaf h, refl)
      | inr same ↦ cc (rw (other, same) at absent)
    ]
  ]

  -- When the copy of a value that a lookup does not find fails, avl_tree_insert returns -1, but
  -- the tree is altered: the root has lost the whole subtree into which the value was to go.
  pub avl_insert-lost :
      (l : Tree A) (x : A) (r : Tree A) (h : ℕ)
      → lookup_node cmp (node l x r h) d ≡ false
      → let left = if is_neg (cmp d x) then node leaf x r h else node l x leaf h in
        insert (some (entry_at alloc cmp (attached (node l x r h)))) (some d)
        ≡ some (some (entry_at alloc cmp (attached left)), negsuc 0)
  unfolding insert insert_node lookup_node
  avl_insert-lost l x r h absent = elim (Bool-cases (is_neg (cmp d x))) [
    | inl below ↦ let (l', run) = insert_node-lost l (rw below at absent) in rw (below, run)
    | inr other ↦ elim (Bool-cases (is_pos (cmp d x))) [
      | inl above ↦
          let (r', run) = insert_node-lost r (rw (other, above) at absent) in rw (other, above, run)
      | inr same ↦ cc (rw (other, same) at absent)
    ]
  ]
