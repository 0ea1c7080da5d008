-- ===== src/Heap/Array.antt =====
-- Exchanges in an array, and what they leave in a prefix of it.
use mathlib.Core.List.{Perm}
use mathlib.Core.List.Perm
use data_structures.Prelude.{
  ℕ, zero, suc, ◌≤◌, ◌<◌, ◌≡◌, refl, ap, ◌∙◌, arith, List, [], ◌∷◌, ◌++◌, some, false, inl, inr,
  Bool-cases, ◌==◌, if◌then◌else◌, length, get_or, set, take, length-set, get_elem?-eq-get_or, All,
}
use data_structures.Heap.{swap}

zero-suc : (j : ℕ) → (zero == suc j) ≡ false
zero-suc j = ground arith

suc-zero : (i : ℕ) → (suc i == zero) ≡ false
suc-zero i = ground arith

suc-suc : (i j : ℕ) → (suc i == suc j) ≡ (i == j)
suc-suc i j = ground arith

module _ {ℓ} {A : Type ℓ} where
  pub get_or-set :
      (a : List A) (i j : ℕ) (v d : A)
      → i < length a
      → get_or (set a i v) j d ≡ (if i == j then v else get_or a j d)
  get_or-set [] i j v d h = absurd (omega arith)
  get_or-set (x ∷ a) zero zero v d h = refl
  get_or-set (x ∷ a) zero (suc j) v d h = rw (zero-suc j)
  get_or-set (x ∷ a) (suc i) zero v d h = rw (suc-zero i)
  get_or-set (x ∷ a) (suc i) (suc j) v d h = rw (suc-suc i j) (get_or-set a i j v d (omega arith))

  pub take-set : (n : ℕ) (a : List A) (i : ℕ) (v : A) → take n (set a i v) ≡ set (take n a) i v
  take-set zero a i v = refl
  take-set (suc n) [] i v = refl
  take-set (suc n) (x ∷ a) zero v = refl
  take-set (suc n) (x ∷ a) (suc i) v = ap (◌∷◌ x) (take-set n a i v)

  pub get_or-take :
      (n : ℕ) (a : List A) (i : ℕ) (d : A) → i < n → get_or (take n a) i d ≡ get_or a i d
  get_or-take zero a i d h = absurd (omega arith)
  get_or-take (suc n) [] i d h = refl
  get_or-take (suc n) (x ∷ a) zero d h = refl
  get_or-take (suc n) (x ∷ a) (suc i) d h = get_or-take n a i d (omega arith)

  pub length-take : (n : ℕ) (a : List A) → n ≤ length a → length (take n a) ≡ n
  length-take zero a h = refl
  length-take (suc n) [] h = absurd (omega arith)
  length-take (suc n) (x ∷ a) h = ap suc (length-take n a (omega arith))

  pub take-suc :
      (n : ℕ) (a : List A) (d : A) → n < length a → take (suc n) a ≡ take n a ++ get_or a n d ∷ []
  take-suc zero [] d h = absurd (omega arith)
  take-suc zero (x ∷ a) d h = refl
  take-suc (suc n) [] d h = absurd (omega arith)
  take-suc (suc n) (x ∷ a) d h = ap (◌∷◌ x) (take-suc n a d (omega arith))

  -- The array with the entries at `i` and `j` exchanged; `d` stands for a read out of range.
  abbrev pub exchange : A → List A → ℕ → ℕ → List A
  exchange d a i j = set (set a i (get_or a j d)) j (get_or a i d)

  module _ (d : A) (a : List A) (i j : ℕ) (hi : i < length a) (hj : j < length a) where
    -- `__swap` within the array exchanges the two entries.
    pub swap-exchange : swap a i j ≡ some (exchange d a i j)
    unfolding swap
    swap-exchange = rw (get_elem?-eq-get_or a i d hi, get_elem?-eq-get_or a j d hj)

    pub get_or-exchange :
        (c : ℕ)
        → get_or (exchange d a i j) c d
          ≡ (if j == c then get_or a i d else if i == c then get_or a j d else get_or a c d)
    get_or-exchange c = rw (
      get_or-set (set a i (get_or a j d)) j c (get_or a i d) d (rw length-set hj),
      get_or-set a i c (get_or a j d) d hi,
    )

    pub length-exchange : length (exchange d a i j) ≡ length a
    length-exchange = length-set _ _ _ ∙ length-set _ _ _

  -- A write puts the new entry in the place of the old one.
  set-perm : (a : List A) (i : ℕ) (v d : A) → i < length a → Perm (get_or a i d ∷ set a i v) (v ∷ a)
  set-perm [] i v d h = absurd (omega arith)
  set-perm (x ∷ a) zero v d h = Perm.swap v x a
  set-perm (x ∷ a) (suc i) v d h =
      Perm.trans (Perm.swap x _ _)
        (Perm.trans (Perm.cons x (set-perm a i v d (omega arith))) (Perm.swap v x a))

  pub exchange-perm :
      (d : A) (a : List A) (i j : ℕ) → i < length a → j < length a → Perm (exchange d a i j) a
  exchange-perm d a i j hi hj =
      let b = set a i (get_or a j d) in
      let second = set-perm b j (get_or a i d) d (rw length-set hj) in
      let kept : get_or b j d ≡ get_or a j d =
        get_or-set a i j (get_or a j d) d hi
        ∙ elim (Bool-cases (i == j)) [ inl same ↦ rw same | inr other ↦ rw other ] in
      Perm.cons_inv (Perm.trans (rw kept at second) (set-perm a i (get_or a j d) d hi))

  -- Within a prefix an exchange permutes the prefix.
  pub take-exchange :
      (d : A) (n : ℕ) (a : List A) (i j : ℕ)
      → n ≤ length a
      → i < n
      → j < n
      → Perm (take n (exchange d a i j)) (take n a)
  take-exchange d n a i j h hi hj =
      rw (take-set, take-set, ← get_or-take n a i d hi, ← get_or-take n a j d hj)
        (exchange-perm d (take n a) i j (rw (length-take n a h) hi) (rw (length-take n a h) hj))

  pub take-set_end : (n : ℕ) (a : List A) (x : A) → take n (set a n x) ≡ take n a
  take-set_end zero a x = refl
  take-set_end (suc n) [] x = refl
  take-set_end (suc n) (y ∷ a) x = ap (◌∷◌ y) (take-set_end n a x)

  pub All-take :
      (P : A → Type 0) (d : A) (n : ℕ) (a : List A)
      → n ≤ length a
      → ((i : ℕ) → i < n → P (get_or a i d))
      → All P (take n a)
  All-take P d zero a h p = tt
  All-take P d (suc n) [] h p = absurd (omega arith)
  All-take P d (suc n) (x ∷ a) h p =
      (p 0 (omega arith), All-take P d n a (omega arith) (λ i q. p (suc i) (omega arith)))
