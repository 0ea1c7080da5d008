-- ===== src/AvlTree/Spec.antt =====
-- What the tree promises: an ordered sequence without duplicates.
use data_structures.Prelude.{
  ◌≡◌, Bool, true, false, List, [], ◌∷◌, ◌++◌, if◌then◌else◌, All, ℤ, is_neg, is_pos, ◌||◌, is_zero,
}
use data_structures.AvlTree.Nodes.{Tree, leaf, node}

module _ {ℓ} {A : Type ℓ} where
  -- `__avl_tree_in_order_print` gives the callback these, in this order.
  abbrev pub in_order : Tree A → List A
  in_order leaf = []
  in_order (node left x right h) = in_order left ++ x ∷ in_order right

  module _ (cmp : A → A → ℤ) where
    -- strictly ascending
    abbrev pub IsSorted : List A → Type 0
    IsSorted [] = Unit
    IsSorted (x ∷ xs) = All (λ y. is_neg (cmp x y) ≡ true) xs × IsSorted xs

    abbrev pub insert_sorted : A → List A → List A
    insert_sorted d [] = d ∷ []
    insert_sorted d (x ∷ xs) =
        if is_neg (cmp d x)
        then d ∷ x ∷ xs
        else if is_pos (cmp d x)
        then x ∷ insert_sorted d xs
        else x ∷ xs

    abbrev pub remove_sorted : A → List A → List A
    remove_sorted d [] = []
    remove_sorted d (x ∷ xs) =
        if is_neg (cmp d x) then x ∷ xs else if is_pos (cmp d x) then x ∷ remove_sorted d xs else xs

    abbrev pub contains : A → List A → Bool
    contains d [] = false
    contains d (x ∷ xs) = is_zero (cmp d x) || contains d xs
