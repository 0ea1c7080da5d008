-- ===== src/AvlTree/Entry.antt =====
-- The public functions of src/tree/avl_tree.c but for the level order print. An entry or a value
-- that is NULL is `none`.
use data_structures.Prelude.{
  ℕ, Bool, true, false, Option, none, some, List, [], ◌∷◌, ◌++◌, if◌then◌else◌, ◌>>=◌, ℤ, pos,
  negsuc,
}
use data_structures.AvlTree.{Removal, kept, gone, dataless, insert_node, delete_node, lookup_node}
use data_structures.AvlTree.Nodes.{Tree, leaf, node}

-- What `root` leads to: a tree (NULL is `leaf`), a node that was freed, or a node whose data was
-- freed and not replaced.
pub data Root {ℓ} (A : Type ℓ) : Type ℓ where
  attached : Tree A → Root A
  dangling : Root A
  stripped : Tree A → Tree A → ℕ → Root A

-- `avl_tree_entry`. A callback that is NULL is `none`; `free` and `print` only say whether the
-- callback is given.
pub record Entry {ℓ} (A : Type ℓ) : Type ℓ where
  pub root : Root A
  pub alloc : Option (A → Option A)
  pub free : Bool
  pub cmp : Option (A → A → ℤ)
  pub print : Bool

module _ {ℓ} {A : Type ℓ} where
  -- `handle` says whether `malloc` succeeds.
  unfoldable pub create :
      (handle : Bool) (alloc : Option (A → Option A)) (free : Bool) (cmp : Option (A → A → ℤ))
      (print : Bool)
      → Option (Entry A)
  create handle alloc free cmp print =
      if handle
      then some
          (record { root = attached leaf; alloc = alloc; free = free; cmp = cmp; print = print })
      else none

  -- What a call that gets NULL from the recursion leaves, and what it answers.
  abbrev pub inserted : Entry A → Tree A × Bool → Entry A × ℤ
  inserted entry (t, true) = (record entry { root = attached t }, pos 0)
  inserted entry (t, false) = (record entry { root = attached t }, negsuc 0)

  -- A NULL for a tree that had a node means that the node was freed.
  abbrev pub removed : Entry A → Tree A → Removal A → Entry A × ℤ
  removed entry t (kept t') = (record entry { root = attached t' }, pos 0)
  removed entry leaf gone = (record entry { root = attached leaf }, negsuc 0)
  removed entry (node l x r h) gone = (record entry { root = dangling }, negsuc 0)
  removed entry t (dataless l r h) = (record entry { root = stripped l r h }, negsuc 0)

  -- The callbacks are called with what `root` leads to; `none` is a use of freed data.
  insert_into :
      Entry A → Root A → Option (A → Option A) → Option (A → A → ℤ) → A → Option (Entry A × ℤ)
  insert_into entry (attached t) (some alloc) (some cmp) value =
      insert_node cmp alloc t value >>= λ outcome. some (inserted entry outcome)
  insert_into entry dangling (some alloc) (some cmp) value = none
  insert_into entry (stripped l r h) (some alloc) (some cmp) value = none
  insert_into entry root none cmp value = some (entry, negsuc 0)
  insert_into entry root (some alloc) none value = some (entry, negsuc 0)

  -- `avl_tree_insert`: 0 on success and -1 otherwise
  unfoldable pub insert : Option (Entry A) → Option A → Option (Option (Entry A) × ℤ)
  unfolding insert_into
  insert none value = some (none, negsuc 0)
  insert (some entry) none = some (some entry, negsuc 0)
  insert (some entry) (some value) =
      insert_into entry entry.root entry.alloc entry.cmp value >>= λ (entry', status).
      some (some entry', status)

  delete_from :
      Entry A
      → Root A
      → Option (A → Option A)
      → Bool
      → Option (A → A → ℤ)
      → A
      → Option (Entry A × ℤ)
  delete_from entry (attached t) (some alloc) true (some cmp) value =
      delete_node cmp alloc t value >>= λ m. some (removed entry t m)
  delete_from entry dangling (some alloc) true (some cmp) value = none
  delete_from entry (stripped l r h) (some alloc) true (some cmp) value = none
  delete_from entry root none free cmp value = some (entry, negsuc 0)
  delete_from entry root (some alloc) false cmp value = some (entry, negsuc 0)
  delete_from entry root (some alloc) true none value = some (entry, negsuc 0)

  -- `avl_tree_delete`: 0 on success and -1 otherwise
  unfoldable pub delete : Option (Entry A) → Option A → Option (Option (Entry A) × ℤ)
  unfolding delete_from
  delete none value = some (none, negsuc 0)
  delete (some entry) none = some (some entry, negsuc 0)
  delete (some entry) (some value) =
      delete_from entry entry.root entry.alloc entry.free entry.cmp value >>= λ (entry', status).
      some (some entry', status)

  lookup_in : Root A → Option (A → A → ℤ) → A → Option Bool
  lookup_in root none value = some false
  lookup_in (attached t) (some cmp) value = some (lookup_node cmp t value)
  lookup_in dangling (some cmp) value = none
  lookup_in (stripped l r h) (some cmp) value = none

  -- `avl_tree_lookup`: 1 is true
  unfoldable pub lookup : Option (Entry A) → Option A → Option Bool
  unfolding lookup_in
  lookup none value = some false
  lookup (some entry) none = some false
  lookup (some entry) (some value) = lookup_in entry.root entry.cmp value

  -- What `__avl_tree_destroy` calls `_free` on, in order.
  unfoldable pub destroy_node : Tree A → List A
  destroy_node leaf = []
  destroy_node (node left x right h) = destroy_node left ++ destroy_node right ++ x ∷ []

  -- What the recursive prints give the callback. Those of `__avl_tree_pre_order_print` and
  -- `__avl_tree_post_order_print` call the in-order print below the root.
  unfoldable pub in_order_print : Tree A → List A
  in_order_print leaf = []
  in_order_print (node left x right h) = in_order_print left ++ x ∷ in_order_print right

  unfoldable pub pre_order_print : Tree A → List A
  unfolding in_order_print
  pre_order_print leaf = []
  pre_order_print (node left x right h) = x ∷ in_order_print left ++ in_order_print right

  unfoldable pub post_order_print : Tree A → List A
  unfolding in_order_print
  post_order_print leaf = []
  post_order_print (node left x right h) = in_order_print left ++ in_order_print right ++ x ∷ []
