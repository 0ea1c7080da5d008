-- ===== src/AvlTree/Sorted.antt =====
-- The ordered sequence on both sides of a node: where an insertion, a removal or a search goes on.
use mathlib.Core.Bool.{or_assoc}
use data_structures.Prelude.{
  ◌≡◌, refl, ap, ◌∙◌, sym, arith, true, false, List, [], ◌∷◌, ◌++◌, All, All-append_left,
  All-append_right, All-mono, ℤ, is_neg, is_pos, ◌||◌, inl, inr, Bool-cases,
}
use data_structures.Compare.{IsOrder, below_trans, above_trans, neg_trans}
use data_structures.AvlTree.Spec.{IsSorted, insert_sorted, remove_sorted, contains}

pos-not-neg : (c : ℤ) → is_pos c ≡ true → is_neg c ≡ false
pos-not-neg c h = ground arith

neg-not-pos : (c : ℤ) → is_neg c ≡ true → is_pos c ≡ false
neg-not-pos c h = ground arith

module _ {ℓ} {A : Type ℓ} {cmp : A → A → ℤ} (o : IsOrder cmp) where
  -- `d` lies below, or above, every element
  abbrev pub Below : A → List A → Type 0
  Below d = All (λ y. is_neg (cmp d y) ≡ true)

  abbrev pub Above : A → List A → Type 0
  Above d = All (λ y. is_pos (cmp d y) ≡ true)

  -- the two sides of an element of a sorted sequence
  pub record Sides (xs : List A) (x : A) (ys : List A) : Type 0 where
    pub left : IsSorted cmp xs
    pub right : IsSorted cmp ys
    pub under : All (λ y. is_neg (cmp y x) ≡ true) xs
    pub over : All (λ y. is_neg (cmp x y) ≡ true) ys

  pub IsSorted-Sides :
      (xs : List A) (x : A) (ys : List A) → IsSorted cmp (xs ++ x ∷ ys) → Sides xs x ys
  IsSorted-Sides [] x ys s = record { left = tt; right = s.1; under = tt; over = s.0 }
  IsSorted-Sides (y ∷ xs) x ys s =
      let rest = IsSorted-Sides xs x ys s.1 in
      record {
        left = (All-append_left (λ z. is_neg (cmp y z) ≡ true) xs (x ∷ ys) s.0, rest.left);
        right = rest.right;
        under = ((All-append_right (λ z. is_neg (cmp y z) ≡ true) xs (x ∷ ys) s.0).0, rest.under);
        over = rest.over;
      }

  Below-over :
      (x d : A) (ys : List A)
      → All (λ y. is_neg (cmp x y) ≡ true) ys
      → is_pos (cmp d x) ≡ false
      → Below d ys
  Below-over x d ys over h = All-mono _ (λ y k. above_trans o x y d k h) ys over

  Above-under :
      (x d : A) (xs : List A)
      → All (λ y. is_neg (cmp y x) ≡ true) xs
      → is_neg (cmp d x) ≡ false
      → Above d xs
  Above-under x d xs under h = All-mono _ (λ y k. below_trans o y x d k h) xs under

  pub neg_self : (x : A) → is_neg (cmp x x) ≡ false
  neg_self x = ground (arith, o.flip x x)

  pub pos_self : (x : A) → is_pos (cmp x x) ≡ false
  pos_self x = ground (arith, o.flip x x)

  insert_sorted-left :
      (d : A) (xs : List A) (x : A) (ys : List A)
      → is_neg (cmp d x) ≡ true
      → insert_sorted cmp d (xs ++ x ∷ ys) ≡ insert_sorted cmp d xs ++ x ∷ ys
  insert_sorted-left d [] x ys h = rw h
  insert_sorted-left d (y ∷ xs) x ys h = elim (Bool-cases (is_neg (cmp d y))) [
    | inl below ↦ rw below
    | inr other ↦ rw other (elim (Bool-cases (is_pos (cmp d y))) [
      | inl above ↦ rw above (ap (◌∷◌ y) (insert_sorted-left d xs x ys h))
      | inr same ↦ rw same
    ])
  ]

  insert_sorted-right :
      (d : A) (xs zs : List A)
      → Above d xs
      → insert_sorted cmp d (xs ++ zs) ≡ xs ++ insert_sorted cmp d zs
  insert_sorted-right d [] zs h = refl
  insert_sorted-right d (y ∷ xs) zs (k, h) =
      rw (pos-not-neg (cmp d y) k, k) (ap (◌∷◌ y) (insert_sorted-right d xs zs h))

  remove_sorted-left :
      (d : A) (xs : List A) (x : A) (ys : List A)
      → is_neg (cmp d x) ≡ true
      → remove_sorted cmp d (xs ++ x ∷ ys) ≡ remove_sorted cmp d xs ++ x ∷ ys
  remove_sorted-left d [] x ys h = rw h
  remove_sorted-left d (y ∷ xs) x ys h = elim (Bool-cases (is_neg (cmp d y))) [
    | inl below ↦ rw below
    | inr other ↦ rw other (elim (Bool-cases (is_pos (cmp d y))) [
      | inl above ↦ rw above (ap (◌∷◌ y) (remove_sorted-left d xs x ys h))
      | inr same ↦ rw same
    ])
  ]

  remove_sorted-right :
      (d : A) (xs zs : List A)
      → Above d xs
      → remove_sorted cmp d (xs ++ zs) ≡ xs ++ remove_sorted cmp d zs
  remove_sorted-right d [] zs h = refl
  remove_sorted-right d (y ∷ xs) zs (k, h) =
      rw (pos-not-neg (cmp d y) k, k) (ap (◌∷◌ y) (remove_sorted-right d xs zs h))

  contains-append :
      (d : A) (xs ys : List A)
      → contains cmp d (xs ++ ys) ≡ (contains cmp d xs || contains cmp d ys)
  contains-append d [] ys = refl
  contains-append d (x ∷ xs) ys = rw (contains-append d xs ys, or_assoc)

  contains-Below : (d : A) (xs : List A) → Below d xs → contains cmp d xs ≡ false
  contains-Below d [] h = refl
  contains-Below d (x ∷ xs) (k, h) = ground (arith, contains-Below d xs h)

  contains-Above : (d : A) (xs : List A) → Above d xs → contains cmp d xs ≡ false
  contains-Above d [] h = refl
  contains-Above d (x ∷ xs) (k, h) = ground (arith, contains-Above d xs h)

  module _ (d : A) (xs : List A) (x : A) (ys : List A) (s : IsSorted cmp (xs ++ x ∷ ys)) where
    -- A value below the middle is inserted, removed and found on the left.
    pub goes_left :
        is_neg (cmp d x) ≡ true
        → (insert_sorted cmp d (xs ++ x ∷ ys) ≡ insert_sorted cmp d xs ++ x ∷ ys)
          × (remove_sorted cmp d (xs ++ x ∷ ys) ≡ remove_sorted cmp d xs ++ x ∷ ys)
          × (contains cmp d (xs ++ x ∷ ys) ≡ contains cmp d xs)
    goes_left h =
        let sides = IsSorted-Sides xs x ys s in
        let over = Below-over x d ys sides.over (neg-not-pos (cmp d x) h) in
        (
          insert_sorted-left d xs x ys h,
          remove_sorted-left d xs x ys h,
          ground (arith, contains-append d xs (x ∷ ys), contains-Below d ys over),
        )

    -- A value above the middle is inserted, removed and found on the right.
    pub goes_right :
        is_pos (cmp d x) ≡ true
        → (insert_sorted cmp d (xs ++ x ∷ ys) ≡ xs ++ x ∷ insert_sorted cmp d ys)
          × (remove_sorted cmp d (xs ++ x ∷ ys) ≡ xs ++ x ∷ remove_sorted cmp d ys)
          × (contains cmp d (xs ++ x ∷ ys) ≡ contains cmp d ys)
    goes_right h =
        let sides = IsSorted-Sides xs x ys s in
        let other = pos-not-neg (cmp d x) h in
        let under = Above-under x d xs sides.under other in
        (
          insert_sorted-right d xs (x ∷ ys) under ∙ rw (other, h),
          remove_sorted-right d xs (x ∷ ys) under ∙ rw (other, h),
          ground (arith, contains-append d xs (x ∷ ys), contains-Above d xs under),
        )

    -- A value that compares equal to the middle is there: it is not inserted, and is removed there.
    pub stays :
        is_neg (cmp d x) ≡ false
        → is_pos (cmp d x) ≡ false
        → (insert_sorted cmp d (xs ++ x ∷ ys) ≡ xs ++ x ∷ ys)
          × (remove_sorted cmp d (xs ++ x ∷ ys) ≡ xs ++ ys)
          × (contains cmp d (xs ++ x ∷ ys) ≡ true)
    stays h k =
        let under = Above-under x d xs (IsSorted-Sides xs x ys s).under h in
        (
          insert_sorted-right d xs (x ∷ ys) under ∙ rw (h, k),
          remove_sorted-right d xs (x ∷ ys) under ∙ rw (h, k),
          ground (arith, contains-append d xs (x ∷ ys)),
        )

  module _ (P : A → Type 0) (d : A) where
    All-insert_sorted : (xs : List A) → P d → All P xs → All P (insert_sorted cmp d xs)
    All-insert_sorted [] p h = (p, tt)
    All-insert_sorted (x ∷ xs) p (q, h) = elim (Bool-cases (is_neg (cmp d x))) [
      | inl below ↦ rw below (p, (q, h))
      | inr other ↦ rw other (elim (Bool-cases (is_pos (cmp d x))) [
        | inl above ↦ rw above (q, All-insert_sorted xs p h)
        | inr same ↦ rw same (q, h)
      ])
    ]

    All-remove_sorted : (xs : List A) → All P xs → All P (remove_sorted cmp d xs)
    All-remove_sorted [] h = tt
    All-remove_sorted (x ∷ xs) (q, h) = elim (Bool-cases (is_neg (cmp d x))) [
      | inl below ↦ rw below (q, h)
      | inr other ↦ rw other (elim (Bool-cases (is_pos (cmp d x))) [
        | inl above ↦ rw above (q, All-remove_sorted xs h)
        | inr same ↦ rw same h
      ])
    ]

  pub insert_sorted-IsSorted :
      (d : A) (xs : List A) → IsSorted cmp xs → IsSorted cmp (insert_sorted cmp d xs)
  insert_sorted-IsSorted d [] s = (tt, tt)
  insert_sorted-IsSorted d (x ∷ xs) (over, s) = elim (Bool-cases (is_neg (cmp d x))) [
    | inl below ↦
        rw below ((below, All-mono _ (λ y k. neg_trans o d x y below k) xs over), (over, s))
    | inr other ↦ rw other (elim (Bool-cases (is_pos (cmp d x))) [
      | inl above ↦
          rw above (
            All-insert_sorted _ d xs (sym (o.flip d x) ∙ above) over,
            insert_sorted-IsSorted d xs s,
          )
      | inr same ↦ rw same (over, s)
    ])
  ]

  pub remove_sorted-IsSorted :
      (d : A) (xs : List A) → IsSorted cmp xs → IsSorted cmp (remove_sorted cmp d xs)
  remove_sorted-IsSorted d [] s = tt
  remove_sorted-IsSorted d (x ∷ xs) (over, s) = elim (Bool-cases (is_neg (cmp d x))) [
    | inl below ↦ rw below (over, s)
    | inr other ↦ rw other (elim (Bool-cases (is_pos (cmp d x))) [
      | inl above ↦ rw above (All-remove_sorted _ d xs over, remove_sorted-IsSorted d xs s)
      | inr same ↦ rw same s
    ])
  ]
