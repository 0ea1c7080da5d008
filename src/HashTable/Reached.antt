-- ===== src/HashTable/Reached.antt =====
-- The tables that a program reaches by `htable_create`, `htable_insert` and `htable_delete`, and
-- what `htable_destroy` frees.
use mathlib.Core.Option.{some-injective}
use data_structures.Prelude.{
  ℕ, zero, suc, ◌+◌, ◌<◌, ◌^◌, ◌≡◌, refl, ap, arith, sym, ◌∙◌, true, Option, none, some, List, [],
  ◌∷◌, ◌++◌, append_assoc, length-append, length, length-replicate, replicate, get_elem?, ltb, inl,
  inr, Bool-cases, ℤ, pos, negsuc,
}
use data_structures.HashTable.{Node, HashTable, create, insert, delete, destroy, each_bucket}
use data_structures.HashTable.Entries.{entries, IsValid, empty-Placed}
use data_structures.HashTable.Correct.{Respects, htable_delete_correct}
use data_structures.HashTable.Insert.{added, full, out_of_range, no_memory, htable_insert_correct}

module _ {ℓ κ} {K : Type ℓ} {V : Type κ} (hash : K → ℕ) (cmp : K → K → ℤ) (alloc_key : K → Option K)
    (alloc_value : V → Option V) where
  -- the tables of a program that creates one with `capacity` buckets
  pub data Reaches (capacity : ℕ) : HashTable K V → Type (ℓ ⊔ κ) where
    created :
        (table : HashTable K V)
        → create true true true capacity ≡ some (some table)
        → Reaches capacity table
    inserted :
        (table table' : HashTable K V) (key : Option K) (value : Option V) (status : ℤ)
        → Reaches capacity table
        → insert hash alloc_key alloc_value (some table) key value ≡ some (some table', status)
        → Reaches capacity table'
    deleted :
        (table table' : HashTable K V) (key : Option K) (freed : List (Node K V)) (status : ℤ)
        → Reaches capacity table
        → delete hash cmp (some table) key ≡ some (some table', freed, status)
        → Reaches capacity table'

  -- A valid table that counts no entry.
  pub record Uncounted (capacity : ℕ) (table : HashTable K V) : Type (ℓ ⊔ κ) where
    pub valid : IsValid hash table
    pub uncounted : table.size ≡ 0
    pub same_capacity : table.capacity ≡ capacity

  same_made : (made table : HashTable K V) → some (some made) ≡ some (some table) → made ≡ table
  same_made made table e = some-injective made table (some-injective (some made) (some table) e)

  create-Uncounted :
      (capacity : ℕ) (table : HashTable K V)
      → create true true true capacity ≡ some (some table)
      → Uncounted capacity table
  unfolding create
  create-Uncounted capacity table e = elim (Bool-cases (ltb capacity (2 ^ 31))) [
    | inr many ↦
        let fails : create true true true capacity ≡ none = rw many refl in cc (sym fails ∙ e)
    | inl few ↦
        let made : HashTable K V = record {
          capacity = capacity;
          size = 0;
          buckets = replicate capacity [];
        } in
        let run : create true true true capacity ≡ some (some made) = rw few refl in
        rw (← same_made made table (sym run ∙ e)) (record {
          valid = (
            length-replicate capacity [],
            empty-Placed hash capacity 0 (replicate capacity []) refl,
          );
          uncounted = refl;
          same_capacity = refl;
        })
  ]

  same_table :
      (answer : Option (Option (HashTable K V) × ℤ)) (table table' : HashTable K V) (s s' : ℤ)
      → answer ≡ some (some table, s)
      → answer ≡ some (some table', s')
      → table ≡ table'
  same_table answer table table' s s' e e' =
      let out : Option (HashTable K V) × ℤ = (some table, s) in
      let out' : Option (HashTable K V) × ℤ = (some table', s') in
      let both : some out ≡ some out' = sym e ∙ e' in
      some-injective table table' (ap (λ o. o.0) (some-injective out out' both))

  same_left :
      (answer : Option (Option (HashTable K V) × List (Node K V) × ℤ))
      (table table' : HashTable K V) (freed freed' : List (Node K V)) (s s' : ℤ)
      → answer ≡ some (some table, freed, s)
      → answer ≡ some (some table', freed', s')
      → table ≡ table'
  same_left answer table table' freed freed' s s' e e' =
      let out : Option (HashTable K V) × List (Node K V) × ℤ = (some table, freed, s) in
      let out' : Option (HashTable K V) × List (Node K V) × ℤ = (some table', freed', s') in
      let both : some out ≡ some out' = sym e ∙ e' in
      some-injective table table' (ap (λ o. o.0) (some-injective out out' both))

  module _ (respects : Respects hash cmp)
      (copies : (k k' : K) → alloc_key k ≡ some k' → hash k' ≡ hash k) where
    insert-Uncounted :
        (capacity : ℕ) (table table' : HashTable K V) (key : Option K) (value : Option V)
        (status : ℤ)
        → Uncounted capacity table
        → insert hash alloc_key alloc_value (some table) key value ≡ some (some table', status)
        → Uncounted capacity table'
    unfolding insert
    insert-Uncounted capacity table table' none value status h e =
        rw (← same_table (some (some table, negsuc 0)) table table' (negsuc 0) status refl e) h
    insert-Uncounted capacity table table' (some key) none status h e =
        rw (← same_table (some (some table, negsuc 0)) table table' (negsuc 0) status refl e) h
    insert-Uncounted capacity table table' (some key) (some value) status h e =
        let answer = insert hash alloc_key alloc_value (some table) (some key) (some value) in
        elim (htable_insert_correct hash alloc_key alloc_value table key value copies h.valid) [
          | added t node run made room v ↦
              rw (← same_table answer t table' (pos 0) status run e) (record {
                valid = v.valid;
                uncounted = v.same_size ∙ h.uncounted;
                same_capacity = v.same_capacity ∙ h.same_capacity;
              })
          | full run at ↦ rw (← same_table answer table table' (negsuc 1) status run e) h
          | out_of_range run outside ↦
              rw (← same_table answer table table' (negsuc 2) status run e) h
          | no_memory run fails ↦ rw (← same_table answer table table' (negsuc 3) status run e) h
        ]

    delete-Uncounted :
        (capacity : ℕ) (table table' : HashTable K V) (key : Option K) (freed : List (Node K V))
        (status : ℤ)
        → Uncounted capacity table
        → delete hash cmp (some table) key ≡ some (some table', freed, status)
        → Uncounted capacity table'
    unfolding delete
    delete-Uncounted capacity table table' none freed status h e =
        rw
          (← same_left (some (some table, [], negsuc 0)) table table' [] freed (negsuc 0) status
            refl e)
          h
    delete-Uncounted capacity table table' (some key) freed status h e =
        let answer = delete hash cmp (some table) (some key) in
        elim (Bool-cases (ltb (hash key) table.capacity)) [
          | inl inside ↦
              let v = htable_delete_correct hash cmp respects table key h.valid (ground arith) in
              rw (← same_left answer v.table' table' v.freed freed v.status status v.run e)
                (record {
                  valid = v.valid;
                  uncounted = v.same_size ∙ h.uncounted;
                  same_capacity = v.same_capacity ∙ h.same_capacity;
                })
          | inr outside ↦
              rw (← same_left answer table table' [] freed (negsuc 1) status (rw outside refl) e) h
        ]

    reaches-Uncounted :
        (capacity : ℕ) (table : HashTable K V) → Reaches capacity table → Uncounted capacity table
    reaches-Uncounted capacity table (created _ e) = create-Uncounted capacity table e
    reaches-Uncounted capacity table (inserted table' _ key value status before e) =
        insert-Uncounted capacity table' table key value status
          (reaches-Uncounted capacity table' before) e
    reaches-Uncounted capacity table (deleted table' _ key freed status before e) =
        delete-Uncounted capacity table' table key freed status
          (reaches-Uncounted capacity table' before) e

    -- In every table that htable_create, for a capacity, and any htable_insert and
    -- htable_delete after it reach, with the laws on hashes, each entry stands in the bucket
    -- of its hash, the capacity is the one asked for, and the size is 0.
    pub reaches-IsValid :
        (capacity : ℕ) (table : HashTable K V)
        → Reaches capacity table
        → IsValid hash table × (table.capacity ≡ capacity) × (table.size ≡ 0)
    reaches-IsValid capacity table r =
        let v = reaches-Uncounted capacity table r in (v.valid, v.same_capacity, v.uncounted)

module _ {ℓ κ} {K : Type ℓ} {V : Type κ} where
  get_elem?-append :
      (passed buckets : List (List (Node K V))) (bucket : List (Node K V))
      → get_elem? (passed ++ bucket ∷ buckets) (length passed) ≡ some bucket
  get_elem?-append [] buckets bucket = refl
  get_elem?-append (p ∷ passed) buckets bucket = get_elem?-append passed buckets bucket

  each_bucket-all :
      (n i : ℕ) (all passed buckets : List (List (Node K V)))
      → n + i < 2 ^ 31
      → length buckets ≡ n
      → length passed ≡ i
      → all ≡ passed ++ buckets
      → each_bucket (λ i bucket. bucket) n i all ≡ some (entries buckets)
  each_bucket-all zero i all passed [] b p q e = refl
  each_bucket-all zero i all passed (bucket ∷ buckets) b p q e = absurd (omega arith)
  each_bucket-all (suc n) i all passed [] b p q e = absurd (omega arith)
  each_bucket-all (suc n) i all passed (bucket ∷ buckets) b p q e =
      let here : get_elem? all i ≡ some bucket =
        rw (e, ← q) (get_elem?-append passed buckets bucket) in
      let longer : length (passed ++ bucket ∷ []) ≡ i + 1 =
        omega (arith, length-append passed (bucket ∷ []), q) in
      let again : all ≡ (passed ++ bucket ∷ []) ++ buckets =
        e ∙ sym (append_assoc passed (bucket ∷ []) buckets) in
      let rest =
        each_bucket-all n (i + 1) all (passed ++ bucket ∷ []) buckets (omega arith)
          (omega (arith, p)) longer again in
      let counts : ltb (i + 1) (2 ^ 31) ≡ true = ground arith in rw (here, counts, rest) refl

  -- On a table of less than 2 ^ 31 buckets with each entry in the bucket of its hash,
  -- htable_destroy reads no bucket outside of the table and frees every entry, each once.
  pub destroy_correct :
      (hash : K → ℕ) (table : HashTable K V)
      → IsValid hash table
      → table.capacity < 2 ^ 31
      → destroy (some table) ≡ some (entries table.buckets)
  unfolding destroy
  destroy_correct hash table (e, placed) few =
      each_bucket-all table.capacity 0 table.buckets [] table.buckets (omega arith) e refl refl
