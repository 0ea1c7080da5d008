-- ===== src/BinaryTree/Shape.antt =====
-- src/tree/binary_tree_problems.c: the tests that compare two trees. `same` is `==` on the data,
-- an `int`.
use data_structures.Prelude.{
  ◌≡◌, refl, ap, sym, ◌∙◌, ◌↔◌, Bool, true, false, inl, inr, Bool-cases, if◌then◌else◌,
}
use data_structures.BinaryTree.{Tree, leaf, node}

module _ {ℓ} {A : Type ℓ} where
  -- the tree, seen from behind
  abbrev pub mirror : Tree A → Tree A
  mirror leaf = leaf
  mirror (node left x right) = node (mirror right) x (mirror left)

  mirror-mirror : (t : Tree A) → mirror (mirror t) ≡ t
  mirror-mirror leaf = refl
  mirror-mirror (node l x r) = rw (mirror-mirror l, mirror-mirror r) refl

module _ {ℓ} {A : Type ℓ} (same : A → A → Bool) where
  unfoldable pub are_duplicate : Tree A → Tree A → Bool
  are_duplicate leaf leaf = true
  are_duplicate leaf (node left x right) = false
  are_duplicate (node left x right) leaf = false
  are_duplicate (node left x right) (node left' y right') =
      let on_left = are_duplicate left left' in
      let on_right = are_duplicate right right' in
      if same x y then (if on_left then on_right else false) else false

  unfoldable pub are_mirror : Tree A → Tree A → Bool
  are_mirror leaf leaf = true
  are_mirror leaf (node left x right) = false
  are_mirror (node left x right) leaf = false
  are_mirror (node left x right) (node left' y right') =
      let outside = are_mirror left right' in
      let inside = are_mirror right left' in
      if same x y then (if outside then inside else false) else false

  unfoldable pub is_foldable : Tree A → Bool
  unfolding are_mirror
  is_foldable leaf = true
  is_foldable (node left x right) = are_mirror left right

  module _ (equal : (x y : A) → (same x y ≡ true) ↔ (x ≡ y)) where
    node-cong : {l l' r r' : Tree A} {x y : A} → l ≡ l' → x ≡ y → r ≡ r' → node l x r ≡ node l' y r'
    node-cong e f g = rw (e, f, g) refl

    duplicate→equal : (t u : Tree A) → are_duplicate t u ≡ true → t ≡ u
    unfolding are_duplicate
    duplicate→equal leaf leaf h = refl
    duplicate→equal leaf (node l x r) h = cc h
    duplicate→equal (node l x r) leaf h = cc h
    duplicate→equal (node l x r) (node l' y r') h = elim (Bool-cases (same x y)) [
      | inl alike ↦ elim (Bool-cases (are_duplicate l l')) [
        | inl left ↦
            node-cong (duplicate→equal l l' left) ((equal x y).0 alike)
              (duplicate→equal r r' (rw (alike, left) at h))
        | inr left ↦ cc (rw (alike, left) at h)
      ]
      | inr unlike ↦ cc (rw unlike at h)
    ]

    self-duplicate : (t : Tree A) → are_duplicate t t ≡ true
    unfolding are_duplicate
    self-duplicate leaf = refl
    self-duplicate (node l x r) = rw ((equal x x).1 refl, self-duplicate l, self-duplicate r) refl

    -- If the test on the data is equality, `binary_tree_are_duplicate` holds exactly when the two trees are equal.
    pub are_duplicate_correct : (t u : Tree A) → (are_duplicate t u ≡ true) ↔ (t ≡ u)
    are_duplicate_correct t u = (duplicate→equal t u, λ e. rw (← e) (self-duplicate t))

    mirror-duplicate : (t u : Tree A) → are_mirror t u ≡ are_duplicate t (mirror u)
    unfolding are_duplicate are_mirror
    mirror-duplicate leaf leaf = refl
    mirror-duplicate leaf (node l x r) = refl
    mirror-duplicate (node l x r) leaf = refl
    mirror-duplicate (node l x r) (node l' y r') =
        rw (mirror-duplicate l r', mirror-duplicate r l') refl

    -- If the test on the data is equality, `binary_tree_are_mirror` holds exactly when the first tree is the second one, seen from
    -- behind.
    pub are_mirror_correct : (t u : Tree A) → (are_mirror t u ≡ true) ↔ (t ≡ mirror u)
    are_mirror_correct t u = rw (mirror-duplicate t u) (are_duplicate_correct t (mirror u))

    -- If the test on the data is equality, `binary_tree_is_foldable` holds exactly when the tree looks the same from behind.
    pub is_foldable_correct : (t : Tree A) → (is_foldable t ≡ true) ↔ (t ≡ mirror t)
    unfolding is_foldable
    is_foldable_correct leaf = (λ h. refl, λ e. refl)
    is_foldable_correct (node l x r) = (
      λ h.
          let out = (are_mirror_correct l r).0 h in
          node-cong out refl (sym (ap mirror out ∙ mirror-mirror r)),
      λ e. (are_mirror_correct l r).1 (ap left_of e),
    )
      where
        left_of : Tree A → Tree A
        left_of leaf = leaf
        left_of (node l x r) = l
