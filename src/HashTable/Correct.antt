-- ===== src/HashTable/Correct.antt =====
-- What `htable_insert` and `htable_delete` do to the entries of a table.
use data_structures.Prelude.{
  filter, not, Bool, ℕ, ◌+◌, ◌<◌, ◌≡◌, ◌≢◌, refl, ap, arith, sym, ◌∙◌, true, some, List, [], ◌∷◌,
  ◌++◌, append-nil, All, All-mono, length, length-set, get_elem?, set, ltb, inl, inr, Bool-cases, ℤ,
  negsuc, is_zero, is_neg,
}
use data_structures.HashTable.{Node, HashTable, kept, matching, is_match, delete}
use data_structures.HashTable.Entries.{entries, Placed, IsValid, Placed-At, set-Placed}

-- Keys that compare as equal have one hash.
pub record Respects {ℓ} {K : Type ℓ} (hash : K → ℕ) (cmp : K → K → ℤ) : Type ℓ where
  pub same_hash : (k k' : K) → is_zero (cmp k k') ≡ true → hash k ≡ hash k'

module _ {ℓ κ} {K : Type ℓ} {V : Type κ} (hash : K → ℕ) (cmp : K → K → ℤ) where
  kept-append :
      (key : K) (xs ys : List (Node K V))
      → kept hash cmp key (xs ++ ys) ≡ kept hash cmp key xs ++ kept hash cmp key ys
  kept-append key [] ys = refl
  kept-append key (x ∷ xs) ys = elim (Bool-cases (is_match hash cmp key x)) [
    | inl same ↦ rw same (kept-append key xs ys)
    | inr other ↦ rw other (ap (λ l. x ∷ l) (kept-append key xs ys))
  ]

  matching-append :
      (key : K) (xs ys : List (Node K V))
      → matching hash cmp key (xs ++ ys) ≡ matching hash cmp key xs ++ matching hash cmp key ys
  matching-append key [] ys = refl
  matching-append key (x ∷ xs) ys = elim (Bool-cases (is_match hash cmp key x)) [
    | inl same ↦ rw same (ap (λ l. x ∷ l) (matching-append key xs ys))
    | inr other ↦ rw other (matching-append key xs ys)
  ]

  kept-All :
      (key : K) (P : Node K V → Type 0) (xs : List (Node K V))
      → All P xs
      → All P (kept hash cmp key xs)
  kept-All key P [] h = tt
  kept-All key P (x ∷ xs) (p, h) = elim (Bool-cases (is_match hash cmp key x)) [
    | inl same ↦ rw same (kept-All key P xs h)
    | inr other ↦ rw other (p, kept-All key P xs h)
  ]

  abbrev equal_key : K → Node K V → Bool
  equal_key key node = is_zero (cmp key node.key)

  kept-filter :
      (key : K) (xs : List (Node K V))
      → kept hash cmp key xs ≡ filter (λ node. not (equal_key key node)) xs
  kept-filter key [] = refl
  kept-filter key (x ∷ xs) = elim (Bool-cases (is_match hash cmp key x)) [
    | inl same ↦ rw same (kept-filter key xs)
    | inr other ↦ rw other (ap (λ l. x ∷ l) (kept-filter key xs))
  ]

  matching-filter :
      (key : K) (xs : List (Node K V)) → matching hash cmp key xs ≡ filter (equal_key key) xs
  matching-filter key [] = refl
  matching-filter key (x ∷ xs) = elim (Bool-cases (is_match hash cmp key x)) [
    | inl same ↦ rw same (ap (λ l. x ∷ l) (matching-filter key xs))
    | inr other ↦ rw other (matching-filter key xs)
  ]

  module _ (respects : Respects hash cmp) where
    -- No node of another hash matches.
    others :
        (key : K) (xs : List (Node K V))
        → All (λ node. hash node.key ≢ hash key) xs
        → (kept hash cmp key xs ≡ xs) × (matching hash cmp key xs ≡ [])
    others key [] h = (refl, refl)
    others key (x ∷ xs) (p, h) =
        let (same, none_match) = others key xs h in
        elim (Bool-cases (is_match hash cmp key x)) [
          | inl equal ↦ absurd (p (sym (respects.same_hash key x.key equal)))
          | inr other ↦ (rw other (ap (λ l. x ∷ l) same), rw other none_match)
        ]

    pub record Deleted (table : HashTable K V) (key : K) : Type (ℓ ⊔ κ) where
      pub table' : HashTable K V
      pub freed : List (Node K V)
      pub status : ℤ
      pub run : delete hash cmp (some table) (some key) ≡ some (some table', freed, status)
      pub fails : is_neg status ≡ true
      pub valid : IsValid hash table'
      pub left :
          entries table'.buckets
          ≡ filter (λ node. not (is_zero (cmp key node.key))) (entries table.buckets)
      pub gone : freed ≡ filter (λ node. is_zero (cmp key node.key)) (entries table.buckets)
      pub same_size : table'.size ≡ table.size
      pub same_capacity : table'.capacity ≡ table.capacity

    module _ (table : HashTable K V) (key : K) (e : length table.buckets ≡ table.capacity)
        (placed : Placed hash 0 table.buckets) (inside : ltb (hash key) table.capacity ≡ true)
        (front back : List (Node K V)) (front_other : All (λ node. hash node.key ≢ hash key) front)
        (back_other : All (λ node. hash node.key ≢ hash key) back) where
      kept_whole :
          (bucket : List (Node K V))
          → kept hash cmp key (front ++ bucket ++ back) ≡ front ++ kept hash cmp key bucket ++ back
      kept_whole bucket =
          kept-append key (front ++ bucket) back
          ∙ (rw
              (
                kept-append key front bucket,
                (others key front front_other).0,
                (others key back back_other).0,
              )
              refl)

      matching_whole :
          (bucket : List (Node K V))
          → matching hash cmp key (front ++ bucket ++ back) ≡ matching hash cmp key bucket
      matching_whole bucket =
          matching-append key (front ++ bucket) back
          ∙ (rw
              (
                matching-append key front bucket,
                (others key front front_other).1,
                (others key back back_other).1,
              )
              (append-nil (matching hash cmp key bucket)))

      all_kept :
          (bucket : List (Node K V)) {left : List (Node K V)}
          → entries table.buckets ≡ front ++ bucket ++ back
          → left ≡ front ++ kept hash cmp key bucket ++ back
          → left ≡ filter (λ node. not (equal_key key node)) (entries table.buckets)
      all_kept bucket whole e =
          e
          ∙ sym (kept_whole bucket)
          ∙ ap (kept hash cmp key) (sym whole)
          ∙ kept-filter key (entries table.buckets)

      all_matching :
          (bucket : List (Node K V))
          → entries table.buckets ≡ front ++ bucket ++ back
          → matching hash cmp key bucket ≡ filter (equal_key key) (entries table.buckets)
      all_matching bucket whole =
          sym (matching_whole bucket)
          ∙ ap (matching hash cmp key) (sym whole)
          ∙ matching-filter key (entries table.buckets)

      delete_bucket :
          (bucket : List (Node K V))
          → get_elem? table.buckets (hash key) ≡ some bucket
          → entries table.buckets ≡ front ++ bucket ++ back
          → ((b : List (Node K V)) → entries (set table.buckets (hash key) b) ≡ front ++ b ++ back)
          → All (λ node. hash node.key ≡ hash key) bucket
          → Deleted table key
      unfolding delete
      delete_bucket [] found whole all here = record {
        table' = table;
        freed = [];
        status = negsuc 2;
        run = rw (inside, found) refl;
        fails = refl;
        valid = (e, placed);
        left = all_kept [] whole whole;
        gone = all_matching [] whole;
        same_size = refl;
        same_capacity = refl;
      }
      delete_bucket (node ∷ nodes) found whole all here = record {
        table' = record {
          capacity = table.capacity;
          size = table.size;
          buckets = set table.buckets (hash key) (kept hash cmp key (node ∷ nodes));
        };
        freed = matching hash cmp key (node ∷ nodes);
        status = negsuc 3;
        run = rw (inside, found) refl;
        fails = refl;
        valid = (
          length-set table.buckets (hash key) (kept hash cmp key (node ∷ nodes)) ∙ e,
          set-Placed hash 0 (hash key) table.buckets (kept hash cmp key (node ∷ nodes)) placed (
              kept-All key (λ node. hash node.key ≡ 0 + hash key) (node ∷ nodes)
                (All-mono (λ node. hash node.key ≡ hash key) (λ node e. omega (arith, e))
                  (node ∷ nodes) here)),
        );
        left = all_kept (node ∷ nodes) whole (all (kept hash cmp key (node ∷ nodes)));
        gone = all_matching (node ∷ nodes) whole;
        same_size = refl;
        same_capacity = refl;
      }

    -- If keys that compare as equal have one hash, then htable_delete, on a table with each
    -- entry in the bucket of its hash and for a key whose hash is in range, keeps exactly the
    -- entries of the whole table whose keys do not compare equal to the key, in their order,
    -- frees exactly the others, leaves each entry in the bucket of its hash, and returns a
    -- negative value even then.
    pub htable_delete_correct :
        (table : HashTable K V) (key : K)
        → IsValid hash table
        → hash key < table.capacity
        → Deleted table key
    htable_delete_correct table key (e, placed) q =
        let inside : ltb (hash key) table.capacity ≡ true = ground arith in
        let at = Placed-At hash 0 (hash key) table.buckets placed (omega (arith, e)) in
        let index : 0 + hash key ≡ hash key = omega arith in
        delete_bucket table key e placed inside at.front at.back (rw (← index) at.front_other)
          (rw (← index) at.back_other) at.bucket at.found at.whole at.all (rw (← index) at.placed)
