-- ===== src/BinaryTree.antt =====
-- src/tree/binary_tree.c and include/tree/binary_tree.h: the functions that recurse over the tree.
-- A pointer to a node is the tree below it, and NULL is `leaf`. What is printed is a list.
mod Tests
pub mod Levels
pub mod Stacked
pub mod Iterative
pub mod Perfect
pub mod Shape
pub mod Halves
pub mod Depth
pub mod Walk
pub mod Queued
use data_structures.Prelude.{
  ℕ, zero, suc, ◌+◌, Bool, true, false, Option, none, some, List, [], ◌∷◌, ◌++◌, if◌then◌else◌, ltb,
  ◌>>=◌,
}

-- `binary_tree_node`, or NULL
pub data Tree {ℓ} (A : Type ℓ) : Type ℓ where
  leaf : Tree A
  node : (left : Tree A) → A → (right : Tree A) → Tree A

-- the macro MAX
abbrev pub larger : ℕ → ℕ → ℕ
larger x y = if ltb x y then y else x

module _ {ℓ} {A : Type ℓ} where
  abbrev pub is_null : Tree A → Bool
  is_null leaf = true
  is_null (node left x right) = false

  -- `allocated` says whether `malloc` succeeds.
  abbrev pub node_create : (allocated : Bool) → A → Tree A
  node_create allocated x = if allocated then node leaf x leaf else leaf

  abbrev pub node_is_leaf : Tree A → Bool
  node_is_leaf leaf = false
  node_is_leaf (node left x right) = if is_null left then is_null right else false

  abbrev pub in_order_print : Tree A → List A
  in_order_print leaf = []
  in_order_print (node left x right) = in_order_print left ++ x ∷ in_order_print right

  abbrev pub pre_order_print : Tree A → List A
  pre_order_print leaf = []
  pre_order_print (node left x right) = x ∷ pre_order_print left ++ pre_order_print right

  abbrev pub post_order_print : Tree A → List A
  post_order_print leaf = []
  post_order_print (node left x right) = post_order_print left ++ post_order_print right ++ x ∷ []

  abbrev pub depth_recursive : Tree A → ℕ
  depth_recursive leaf = 0
  depth_recursive (node left x right) = larger (depth_recursive left) (depth_recursive right) + 1

  abbrev pub size : Tree A → ℕ
  size leaf = 0
  size (node left x right) = size left + size right + 1
