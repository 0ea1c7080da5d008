-- ===== src/AvlTree/Nodes.antt =====
-- The node functions and the rotations of src/tree/avl_tree.c.
use data_structures.Prelude.{
  ℕ, ◌+◌, Bool, true, false, Option, none, some, if◌then◌else◌, ltb, ◌>>=◌, ℤ, pos, negsuc, sub_ℕ,
}

-- `avl_tree_node`, or NULL
pub data Tree {ℓ} (A : Type ℓ) : Type ℓ where
  leaf : Tree A
  node : (left : Tree A) → A → (right : Tree A) → (height : ℕ) → Tree A

-- the macro MAX
abbrev pub larger : ℕ → ℕ → ℕ
larger x y = if ltb x y then y else x

-- i > 1 and i < -1
abbrev pub above_one : ℤ → Bool
above_one (pos n) = ltb 1 n
above_one (negsuc n) = false

abbrev pub below_minus_one : ℤ → Bool
below_minus_one (pos n) = false
below_minus_one (negsuc n) = ltb 0 n

-- i > 0 and i < 0
abbrev pub above_zero : ℤ → Bool
above_zero (pos n) = ltb 0 n
above_zero (negsuc n) = false

abbrev pub below_zero : ℤ → Bool
below_zero (pos n) = false
below_zero (negsuc n) = true

module _ {ℓ} {A : Type ℓ} where
  abbrev pub height : Tree A → ℕ
  height leaf = 0
  height (node left x right h) = h

  abbrev pub get_balance : Tree A → ℤ
  get_balance leaf = pos 0
  get_balance (node left x right h) = sub_ℕ (height left) (height right)

  abbrev pub update_height : Tree A → Tree A
  update_height leaf = leaf
  update_height (node left x right h) = node left x right (1 + larger (height left) (height right))

  pub left_rotate : Tree A → Option (Tree A)
  left_rotate (node left x (node left' y right' h') h) =
      some (update_height (node (update_height (node left x left' h)) y right' h'))
  left_rotate _ = none

  pub right_rotate : Tree A → Option (Tree A)
  right_rotate (node (node left' y right' h') x right h) =
      some (update_height (node left' y (update_height (node right' x right h)) h'))
  right_rotate _ = none

  -- `__avl_tree_balance` after the update of the height, which the rotations read
  rotate : Tree A → Option (Tree A)
  unfolding left_rotate right_rotate
  rotate leaf = none
  rotate (node left x right h) =
      let balance = get_balance (node left x right h) in
      let to_left =
        (if above_zero (get_balance right) then right_rotate right else some right) >>= λ right'.
        left_rotate (node left x right' h) in
      let to_right =
        (if below_zero (get_balance left) then left_rotate left else some left) >>= λ left'.
        right_rotate (node left' x right h) in
      if below_minus_one balance
      then to_left
      else if above_one balance
      then to_right
      else some (node left x right h)

  unfoldable pub balance : Tree A → Option (Tree A)
  unfolding rotate
  balance t = rotate (update_height t)

  -- The data of `__avl_node_get_min_node`.
  unfoldable pub min_data : Tree A → Option A
  min_data leaf = none
  min_data (node leaf x right h) = some x
  min_data (node (node l y r k) x right h) = min_data (node l y r k)
