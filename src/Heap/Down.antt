-- ===== src/Heap/Down.antt =====
-- `__heapify_down` restores the heap order when one entry may stand too high.
use mathlib.Core.List.Perm
use data_structures.Prelude.{
  ℕ, zero, suc, ◌+◌, ◌-◌, ◌*◌, ◌^◌, true, ◌≤◌, ◌<◌, ◌≡◌, ◌≢◌, ◌⊎◌, ◌∙◌, refl, inl, inr, arith, Bool,
  false, List, some, length, get_or, Bool-cases, ltb, leb, ◌==◌, ==_iff, ◌&&◌, if◌then◌else◌,
  get_elem?-eq-get_or,
}
use data_structures.Heap.{parent_idx, choose, down_loop, heapify_down}
use data_structures.Heap.Array.{exchange, swap-exchange, get_or-exchange, length-exchange}
use data_structures.Heap.Order.{IsTest, Fits, IsBridged, Sifted, Sifted-exchange, above_self}

abbrev left_of : ℕ → ℕ
left_of i = 2 * i + 1

abbrev right_of : ℕ → ℕ
right_of i = 2 * i + 2

-- The indices of the children are in the range of `int`.
left-lt : (i : ℕ) → suc i < 2 ^ 30 → ltb (left_of i) (2 ^ 31) ≡ true
left-lt i q = ground arith

right-lt : (i : ℕ) → suc i < 2 ^ 30 → ltb (right_of i) (2 ^ 31) ≡ true
right-lt i q = ground arith

module _ {ℓ} {A : Type ℓ} (above : A → A → Bool) (d : A) (t : IsTest above) where
  -- Only the edges below `i` may be out of order.
  pub record DownInv (n : ℕ) (a : List A) (i : ℕ) : Type 0 where
    pub fits : n ≤ length a
    pub edges : (c : ℕ) → 0 < c → c < n → parent_idx c ≢ i → Fits above d a (parent_idx c) c
    pub bridged : IsBridged above d n a i

  -- the index that the test of one child leaves in `tmp`
  abbrev chosen : List A → ℕ → ℕ → ℕ → ℕ
  chosen a n tmp child =
      if ltb child n
      then (if above (get_or a tmp d) (get_or a child d) then child else tmp)
      else tmp

  choose-chosen :
      (a : List A) (n tmp child : ℕ)
      → n ≤ length a
      → tmp < n
      → choose above a n tmp child ≡ some (chosen a n tmp child)
  unfolding choose
  choose-chosen a n tmp child h k = elim (Bool-cases (ltb child n)) [
    | inl is ↦ rw (
      is,
      get_elem?-eq-get_or a tmp d (omega arith),
      get_elem?-eq-get_or a child d (ground arith),
    )
    | inr out ↦ rw out
  ]

  -- `m` stands over `i` and over each child of `i`, and is one of these.
  record IsBest (a : List A) (n i m : ℕ) : Type 0 where
    inside : m < n
    place : (m ≡ i) ⊎ (0 < m) × (parent_idx m ≡ i)
    over : Fits above d a m i
    least : (c : ℕ) → 0 < c → c < n → parent_idx c ≡ i → Fits above d a m c

  -- The outcome of one test: it stands over the old choice, and over the child if there is one.
  chosen_over :
      (a : List A) (n tmp child : ℕ)
      → tmp < n
      → let m = chosen a n tmp child in
        (m < n)
        × ((m ≡ tmp) ⊎ (m ≡ child))
        × Fits above d a m tmp
        × (child < n → Fits above d a m child)
  chosen_over a n tmp child h =
      let x = get_or a tmp d in
      let y = get_or a child d in
      ground (arith, t.settle x y, above_self above d t x, above_self above d t y)

  chosen-IsBest :
      (a : List A) (n i : ℕ)
      → i < n
      → IsBest a n i (chosen a n (chosen a n i (left_of i)) (right_of i))
  chosen-IsBest a n i h =
      let m = chosen a n i (left_of i) in
      let (in₁, at₁, over₁, left₁) = chosen_over a n i (left_of i) h in
      let r = chosen a n m (right_of i) in
      let (in₂, at₂, over₂, right₂) = chosen_over a n m (right_of i) in₁ in
      let x = get_or a r d in
      let y = get_or a m d in
      record {
        inside = in₂;
        place = place_of i m r at₁ at₂;
        over = t.chain x y (get_or a i d) over₂ over₁;
        least = λ c p q e. elim (side c i p e) [
          | inl left ↦ rw left (t.chain x y (get_or a (left_of i) d) over₂ (left₁ (omega arith)))
          | inr right ↦ rw right (right₂ (omega arith))
        ];
      }
    where
      side : (c i : ℕ) → 0 < c → parent_idx c ≡ i → (c ≡ left_of i) ⊎ (c ≡ right_of i)
      side c i p e = grind arith

      place_of :
          (i m r : ℕ)
          → (m ≡ i) ⊎ (m ≡ left_of i)
          → (r ≡ m) ⊎ (r ≡ right_of i)
          → (r ≡ i) ⊎ (0 < r) × (parent_idx r ≡ i)
      place_of i m r (inl e) (inl f) = inl (f ∙ e)
      place_of i m r (inr e) (inl f) = inr (omega arith, omega arith)
      place_of i m r (inl e) (inr f) = inr (omega arith, omega arith)
      place_of i m r (inr e) (inr f) = inr (omega arith, omega arith)

  exchange-DownInv :
      (n : ℕ) (a : List A) (i m : ℕ)
      → DownInv n a i
      → i < n
      → IsBest a n i m
      → 0 < m
      → parent_idx m ≡ i
      → DownInv n (exchange d a i m) m
  exchange-DownInv n a i m v h b p e =
      let hi : i < length a = omega (arith, v.fits) in
      let hm : m < length a = omega (arith, v.fits, b.inside) in
      let at = get_or-exchange d a i m hi hm in
      let kept = length-exchange d a i m hi hm in
      record {
        fits = omega (arith, kept, v.fits);
        edges = λ c q r s. ground (
          arith,
          at c,
          at (parent_idx c),
          v.edges c,
          v.bridged m,
          v.bridged c,
          b.over,
          b.least c,
          b.inside,
        );
        bridged = λ c q r s u. ground (arith, at c, at (parent_idx m), v.edges c);
      }

  rest-Sifted :
      (n : ℕ) (a : List A) (i m : ℕ) → DownInv n a i → IsBest a n i m → m ≡ i → Sifted above d n a a
  rest-Sifted n a i m v b e = record {
    heap = λ c q r. ground (arith, v.edges c, b.least c);
    same = Perm.refl _;
    size = refl;
  }

  -- a choice other than `i` is a child of `i` further down
  sunk :
      (n : ℕ) (a : List A) (i m : ℕ)
      → IsBest a n i m
      → (m == i) ≡ false
      → (0 < m) × (parent_idx m ≡ i)
  sunk n a i m b e = ground (arith, b.place)

  -- One round at an entry that has a child.
  down_step :
      (k n : ℕ) (a : List A) (i : ℕ)
      → n < 2 ^ 30
      → suc i < 2 ^ 30
      → n - i < suc k
      → i < n
      → DownInv n a i
      → ((m : ℕ) (b : List A)
          → suc m < 2 ^ 30
          → n - m < k
          → DownInv n b m
          → (c : List A) × (down_loop above k b m n ≡ some c) × Sifted above d n b c)
      → (leb n (left_of i) && leb n (right_of i)) ≡ false
      → (c : List A) × (down_loop above (suc k) a i n ≡ some c) × Sifted above d n a c
  unfolding down_loop
  down_step k n a i big small f h v next more =
      let first = chosen a n i (left_of i) in
      let m = chosen a n first (right_of i) in
      let inside = (chosen_over a n i (left_of i) h).0 in
      let b = chosen-IsBest a n i h in
      let hi : i < length a = omega (arith, v.fits) in
      let hm : m < length a = omega (arith, v.fits, b.inside) in
      rw
        (
          left-lt i small,
          right-lt i small,
          more,
          choose-chosen a n i (left_of i) v.fits h,
          choose-chosen a n first (right_of i) v.fits inside,
        )
        (elim (Bool-cases (m == i)) [
          | inl rest ↦ rw rest (a, refl, rest-Sifted n a i m v b ((==_iff m i).0 rest))
          | inr sink ↦
              rw (sink, swap-exchange d a i m hi hm)
                (let (p, e) = sunk n a i m b sink in
                  let (c, run, s) =
                    next m (exchange d a i m) (omega (arith, b.inside)) (omega (arith, b.inside))
                      (exchange-DownInv n a i m v h b p e) in
                  (c, run, Sifted-exchange above d i m v.fits h b.inside s))
        ])

  down_loop_sifts :
      (k n : ℕ) (a : List A) (i : ℕ)
      → n < 2 ^ 30
      → suc i < 2 ^ 30
      → n - i < k
      → DownInv n a i
      → (b : List A) × (down_loop above k a i n ≡ some b) × Sifted above d n a b
  unfolding down_loop
  down_loop_sifts zero n a i big small f v = absurd (omega arith)
  down_loop_sifts (suc k) n a i big small f v =
      elim (Bool-cases (leb n (left_of i) && leb n (right_of i))) [
        | inl leaf ↦
            rw (left-lt i small, right-lt i small, leaf)
              (
                a,
                refl,
                record {
                  heap = λ c q r. ground (arith, v.edges c);
                  same = Perm.refl _;
                  size = refl;
                },
              )
        | inr more ↦
            down_step k n a i big small f (ground arith) v (λ m b. down_loop_sifts k n b m big) more
      ]

  -- With indices in the range of `int`, `__heapify_down` returns, and turns an array with one entry too high into a heap of the same
  -- entries.
  pub heapify_down_sifts :
      (n : ℕ) (a : List A) (i : ℕ)
      → n < 2 ^ 30
      → suc i < 2 ^ 30
      → DownInv n a i
      → (b : List A) × (heapify_down above a i n ≡ some b) × Sifted above d n a b
  unfolding heapify_down
  heapify_down_sifts n a i big small v = down_loop_sifts (n + 1) n a i big small (omega arith) v
