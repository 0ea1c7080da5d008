-- ===== src/AvlTree.antt =====
-- src/tree/avl_tree.c and include/tree/avl_tree.h: the nodes, the rotations and the recursive
-- operations. The tree that a pointer leads to is a `Tree`; a function that updates nodes in place
-- returns what its pointer leads to afterwards. `none` is a read through NULL. Heights are below the
-- number of nodes, so `int` does not overflow.
pub mod Nodes
pub mod Spec
pub mod Balanced
pub mod Sorted
pub mod Insert
pub mod Delete
pub mod Entry
pub mod Api
pub mod Height
pub mod Reached
mod Tests
use Nodes.{Tree, leaf, node, height, balance, min_data}
use data_structures.Prelude.{
  ℕ, Bool, true, false, Option, none, some, if◌then◌else◌, ◌>>=◌, ℤ, is_neg, is_pos,
}

-- What the recursive deletion returns: a node; NULL for no node, or for one that was freed; or NULL
-- because the copy of the data failed, which leaves the node (its children and height are given)
-- with its data freed.
pub data Removal {ℓ} (A : Type ℓ) : Type ℓ where
  kept : Tree A → Removal A
  gone : Removal A
  dataless : Tree A → Tree A → ℕ → Removal A

-- what a parent stores as its child
abbrev pub returned {ℓ} : {A : Type ℓ} → Removal A → Tree A
returned (kept t) = t
returned gone = leaf
returned (dataless l r h) = leaf

module _ {ℓ} {A : Type ℓ} (cmp : A → A → ℤ) where
  -- `__avl_tree_lookup`
  unfoldable pub lookup_node : Tree A → A → Bool
  lookup_node leaf value = false
  lookup_node (node left x right h) value =
      let in_left = lookup_node left value in
      let in_right = lookup_node right value in
      let c = cmp value x in if is_neg c then in_left else if is_pos c then in_right else true

  module _ (alloc : A → Option A) where
    -- `__avl_tree_insert`, with `__avl_node_create`: `alloc` is `none` where `malloc` or `_alloc`
    -- fails. The flag says whether a pointer or NULL is returned; the tree is what it leads to, or
    -- what the old pointer then leads to. A NULL from below is stored as the child.
    unfoldable pub insert_node : Tree A → A → Option (Tree A × Bool)
    insert_node leaf value = elim (alloc value) [
      | none ↦ some (leaf, false)
      | some copy ↦ some (node leaf copy leaf 1, true)
    ]
    insert_node (node left x right h) value =
        let to_left = insert_node left value >>= λ (left', done).
        if done
        then (balance (node left' x right h) >>= λ t. some (t, true))
        else some (node leaf x right h, false) in
        let to_right = insert_node right value >>= λ (right', done).
        if done
        then (balance (node left x right' h) >>= λ t. some (t, true))
        else some (node left x leaf h, false) in
        let c = cmp value x in
        if is_neg c
        then to_left
        else if is_pos c
        then to_right
        else some (node left x right h, true)

    -- `__avl_node_copy_content` from the only child, which is then destroyed
    unfoldable pub take_child : Tree A → Option (Removal A)
    take_child leaf = none
    take_child (node left x right h) = elim (alloc x) [
      | none ↦ some (dataless left right h)
      | some copy ↦ (balance (node left copy right h) >>= λ t. some (kept t))
    ]

    -- `__avl_tree_delete` at a node with two children, once `smallest` of the right subtree is
    -- found and `rest` is that subtree without it.
    unfoldable pub take_smallest : Tree A → Tree A → ℕ → A → Option (Removal A) → Option (Removal A)
    take_smallest left right h smallest rest = elim (alloc smallest) [
      | none ↦ some (dataless left right h)
      | some copy ↦
          (rest >>= λ right'. balance (node left copy (returned right') h) >>= λ t. some (kept t))
    ]

    -- `__avl_tree_delete` at the node that holds the value; `without` deletes from its right
    -- subtree.
    unfoldable pub delete_here : Tree A → Tree A → ℕ → (A → Option (Removal A)) → Option (Removal A)
    unfolding take_child take_smallest
    delete_here leaf leaf h without = some gone
    delete_here (node l x r k) leaf h without = take_child (node l x r k)
    delete_here leaf (node l x r k) h without = take_child (node l x r k)
    delete_here (node l x r k) (node l' x' r' k') h without =
        min_data (node l' x' r' k') >>= λ smallest.
        take_smallest (node l x r k) (node l' x' r' k') h smallest (without smallest)

    -- `__avl_tree_delete`
    unfoldable pub delete_node : Tree A → A → Option (Removal A)
    unfolding delete_here
    delete_node leaf value = some gone
    delete_node (node left x right h) value =
        let from_left = delete_node left value >>= λ left'.
        balance (node (returned left') x right h) >>= λ t. some (kept t) in
        let from_right = delete_node right value >>= λ right'.
        balance (node left x (returned right') h) >>= λ t. some (kept t) in
        let here = delete_here left right h (λ smallest. delete_node right smallest) in
        let c = cmp value x in if is_neg c then from_left else if is_pos c then from_right else here
