-- ===== src/SinglyLinkedList/Duplicates.antt =====
-- What `slist_ordered_delete_duplicates` leaves of a list that is in order.
use data_structures.Prelude.{
  ◌≡◌, refl, arith, true, false, List, [], ◌∷◌, ◌⊎◌, inl, inr, Bool-cases, ℤ, is_zero, is_neg,
  is_pos, All,
}
use data_structures.Compare.{IsOrder, neg_trans}
use data_structures.SinglyLinkedList.{skip_duplicates, ordered_delete_duplicates}

module _ {ℓ} {A : Type ℓ} (cmp : A → A → ℤ) where
  -- no element is above a later one
  abbrev pub IsAscending : List A → Type 0
  IsAscending [] = Unit
  IsAscending (x ∷ xs) = All (λ y. is_pos (cmp x y) ≡ false) xs × IsAscending xs

  -- each element is below all later ones
  abbrev pub IsStrict : List A → Type 0
  IsStrict [] = Unit
  IsStrict (x ∷ xs) = All (λ y. is_neg (cmp x y) ≡ true) xs × IsStrict xs

  -- an element of the list compares equal to `y`
  abbrev pub Has : List A → A → Type 0
  Has [] y = ⊥
  Has (x ∷ xs) y = (is_zero (cmp y x) ≡ true) ⊎ Has xs y

  module _ (o : IsOrder cmp) where
    zero_self : (x : A) → is_zero (cmp x x) ≡ true
    zero_self x = ground (arith, o.flip x x)

    apart :
        (x y : A) → is_pos (cmp x y) ≡ false → is_zero (cmp y x) ≡ false → is_neg (cmp x y) ≡ true
    apart x y h k = ground (arith, o.flip x y, o.flip y x)

    All-map : {P Q : A → Type 0} → ((y : A) → P y → Q y) → (xs : List A) → All P xs → All Q xs
    All-map f [] h = tt
    All-map f (x ∷ xs) (h, hs) = (f x h, All-map f xs hs)

    skip-nil : (x : A) → skip_duplicates cmp x [] ≡ []
    unfolding skip_duplicates
    skip-nil x = refl

    skip-same :
        (x y : A) (xs : List A)
        → is_zero (cmp y x) ≡ true
        → skip_duplicates cmp x (y ∷ xs) ≡ skip_duplicates cmp x xs
    unfolding skip_duplicates
    skip-same x y xs h = rw h refl

    skip-other :
        (x y : A) (xs : List A)
        → is_zero (cmp y x) ≡ false
        → skip_duplicates cmp x (y ∷ xs) ≡ y ∷ skip_duplicates cmp y xs
    unfolding skip_duplicates
    skip-other x y xs h = rw h refl

    skip-below :
        (x : A) (xs : List A)
        → All (λ y. is_pos (cmp x y) ≡ false) xs
        → IsAscending xs
        → All (λ y. is_neg (cmp x y) ≡ true) (skip_duplicates cmp x xs)
          × IsStrict (skip_duplicates cmp x xs)
    skip-below x [] h s = rw (skip-nil x) (tt, tt)
    skip-below x (y ∷ xs) (p, h) (q, s) = elim (Bool-cases (is_zero (cmp y x))) [
      | inl same ↦ rw (skip-same x y xs same) (skip-below x xs h s)
      | inr other ↦
          let (below, strict) = skip-below y xs q s in
          let first = apart x y p other in
          let all : All (λ z. is_neg (cmp x z) ≡ true) (y ∷ skip_duplicates cmp y xs) =
            (first, All-map (λ z r. neg_trans o x y z first r) (skip_duplicates cmp y xs) below) in
          let tail : IsStrict (y ∷ skip_duplicates cmp y xs) = (below, strict) in
          rw (skip-other x y xs other) (all, tail)
    ]

    Has-rest :
        (x : A) (rest rest' ys : List A)
        → rest ≡ rest'
        → All (Has (x ∷ rest')) ys
        → All (Has (x ∷ rest)) ys
    Has-rest x rest rest' ys e h = rw e h

    Has-later :
        (x y : A) (rest : List A) (zs : List A)
        → All (Has (y ∷ rest)) zs
        → All (Has (x ∷ y ∷ rest)) zs
    Has-later x y rest zs h = All-map (λ z r. inr r) zs h

    skip-Has : (x : A) (xs : List A) → All (Has (x ∷ skip_duplicates cmp x xs)) xs
    skip-Has x [] = tt
    skip-Has x (y ∷ xs) = elim (Bool-cases (is_zero (cmp y x))) [
      | inl same ↦
          Has-rest x _ (skip_duplicates cmp x xs) (y ∷ xs) (skip-same x y xs same)
            (inl same, skip-Has x xs)
      | inr other ↦
          Has-rest x _ (y ∷ skip_duplicates cmp y xs) (y ∷ xs) (skip-other x y xs other)
            (inr (inl (zero_self y)), Has-later x y (skip_duplicates cmp y xs) xs (skip-Has y xs))
    ]

    -- Of a list in which no element is above a later one, for a comparison callback that orders,
    -- `slist_ordered_delete_duplicates` leaves a list in which each element is below all later ones,
    -- and each element that was there still compares equal to one.
    pub delete_duplicates_correct :
        (xs : List A)
        → IsAscending xs
        → IsStrict (ordered_delete_duplicates cmp xs)
          × All (Has (ordered_delete_duplicates cmp xs)) xs
    unfolding ordered_delete_duplicates
    delete_duplicates_correct [] s = (tt, tt)
    delete_duplicates_correct (x ∷ xs) (h, s) =
        (skip-below x xs h s, (inl (zero_self x), skip-Has x xs))
