-- ===== src/SinglyLinkedList/Palindrome.antt =====
-- The recursion of `slist_is_palindrome`.
use data_structures.Prelude.{
  ℕ, zero, suc, ◌≡◌, refl, ap, arith, sym, ◌∙◌, Bool, true, false, ◌&&◌, some, List, [], ◌∷◌, ◌++◌,
  ℤ, is_zero, length, length-append, append_assoc, append-nil, ◌>>=◌,
}
use data_structures.SinglyLinkedList.{compare_left, is_palindrome, print_reverse}

module _ {ℓ} {A : Type ℓ} where
  split_last :
      (n : ℕ) (ys : List A)
      → length ys ≡ suc n
      → (ys' : List A) × (y : A) × (ys ≡ ys' ++ y ∷ []) × (length ys' ≡ n)
  split_last n [] e = absurd (omega arith)
  split_last zero (y ∷ []) e = ([], y, refl, refl)
  split_last zero (y ∷ z ∷ ys) e = absurd (omega arith)
  split_last (suc n) (y ∷ ys) e =
      let (ys', z, e', f) = split_last n ys (omega arith) in (y ∷ ys', z, ap (◌∷◌ y) e', ap suc f)

  length-print_reverse : (xs : List A) → length (print_reverse xs) ≡ length xs
  unfolding print_reverse
  length-print_reverse [] = refl
  length-print_reverse (x ∷ xs) =
      omega (arith, length-append (print_reverse xs) (x ∷ []), length-print_reverse xs)

  module _ (cmp : A → A → ℤ) where
    -- the lists have the same length and compare equal, element by element
    abbrev pub agree : List A → List A → Bool
    agree [] [] = true
    agree [] (x ∷ xs) = false
    agree (y ∷ ys) [] = false
    agree (y ∷ ys) (x ∷ xs) = is_zero (cmp y x) && agree ys xs

    agree-append :
        (ys xs : List A) (y x : A)
        → length ys ≡ length xs
        → agree (ys ++ y ∷ []) (xs ++ x ∷ []) ≡ (agree ys xs && is_zero (cmp y x))
    agree-append [] [] y x e = and_true (is_zero (cmp y x))
      where
        and_true : (b : Bool) → (b && true) ≡ b
        and_true true = refl
        and_true false = refl
    agree-append [] (z ∷ xs) y x e = absurd (omega arith)
    agree-append (z ∷ ys) [] y x e = absurd (omega arith)
    agree-append (z ∷ ys) (w ∷ xs) y x e =
        rw (agree-append ys xs y x (omega arith))
          (and_assoc (is_zero (cmp z w)) (agree ys xs) (is_zero (cmp y x)))
      where
        and_assoc : (a b c : Bool) → (a && (b && c)) ≡ ((a && b) && c)
        and_assoc true b c = refl
        and_assoc false b c = refl

    compared :
        (b : Bool) (l : List A) (y x : A) (zs : List A)
        → (b ≡ true → l ≡ y ∷ zs)
        → (l' : List A) × (compare_left cmp b l x ≡ some (b && is_zero (cmp y x), l'))
          × ((b && is_zero (cmp y x)) ≡ true → l' ≡ zs)
    compared false l y x zs h = (l, refl, λ e. cc e)
    compared true l y x zs h = rw (h refl) (zs, refl, λ e. refl)

    -- The outcome when `left` starts with `ys`, which has the length of `right`.
    abbrev Outcome : (left right ys zs : List A) → Type ℓ
    Outcome left right ys zs =
        (l : List A) × (is_palindrome cmp left right ≡ some (agree ys (print_reverse right), l))
        × (agree ys (print_reverse right) ≡ true → l ≡ zs)

    one_step :
        (left : List A) (x : A) (right : List A)
        → (is_palindrome cmp left (x ∷ right)
            ≡ (is_palindrome cmp left right >>= λ out. compare_left cmp out.0 out.1 x))
          × (print_reverse (x ∷ right) ≡ print_reverse right ++ x ∷ [])
    unfolding is_palindrome print_reverse
    one_step left x right = (refl, refl)

    palindrome-step :
        (x : A) (right ys ys' zs : List A) (y : A)
        → ys ≡ ys' ++ y ∷ []
        → length ys' ≡ length right
        → Outcome (ys' ++ y ∷ zs) right ys' (y ∷ zs)
        → Outcome (ys ++ zs) (x ∷ right) ys zs
    palindrome-step x right ys ys' zs y parts count (l, run, left) =
        let same =
          agree-append ys' (print_reverse right) y x (count ∙ sym (length-print_reverse right)) in
        let whole : ys ++ zs ≡ ys' ++ y ∷ zs = rw parts (append_assoc ys' (y ∷ []) zs) in
        let (step, print) = one_step (ys' ++ y ∷ zs) x right in
        rw (whole, step, print, run, parts, same)
          (compared (agree ys' (print_reverse right)) l y x zs left)

    palindrome-agree :
        (right ys zs : List A) → length ys ≡ length right → Outcome (ys ++ zs) right ys zs
    unfolding is_palindrome print_reverse
    palindrome-agree [] [] zs e = (zs, refl, λ h. refl)
    palindrome-agree [] (y ∷ ys) zs e = absurd (omega arith)
    palindrome-agree (x ∷ right) ys zs e =
        let (ys', y, parts, count) = split_last (length right) ys e in
        palindrome-step x right ys ys' zs y parts count (palindrome-agree right ys' (y ∷ zs) count)

    -- `slist_is_palindrome` on a list and itself never follows a NULL pointer, and returns whether
    -- the list compares equal, element by element, to what `slist_print_reverse` prints of it.
    pub is_palindrome_correct :
        (xs : List A)
        → (rest : List A) × (is_palindrome cmp xs xs ≡ some (agree xs (print_reverse xs), rest))
    is_palindrome_correct xs =
        let (l, run, left) = palindrome-agree xs xs [] refl in (l, rw (append-nil xs) at run)
