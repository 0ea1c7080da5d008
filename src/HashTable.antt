-- ===== src/HashTable.antt =====
-- src/htable/htable.c and include/htable/htable.h: a table of buckets, each a kernel list of nodes,
-- which is the list of the nodes here. The callbacks are parameters; that `alloc_key` or
-- `alloc_value` returns NULL is `none`. `none` as a result is a read outside of the buckets, or
-- an overflow.
mod Entries
mod Correct
mod Insert
mod Reached
mod Tests
use data_structures.Prelude.{
  ℕ, zero, suc, ◌+◌, ◌^◌, Bool, true, false, not, Option, none, some, List, [], ◌∷◌, ◌++◌,
  if◌then◌else◌, ltb, ◌==◌, get_elem?, set, replicate, ◌>>=◌, ℤ, pos, negsuc, is_zero,
}

module _ {ℓ κ} where
  -- `htable_node_t`
  pub record Node (K : Type ℓ) (V : Type κ) : Type (ℓ ⊔ κ) where
    pub key : K
    pub value : V

  -- `htable_t`, without its callbacks
  pub record HashTable (K : Type ℓ) (V : Type κ) : Type (ℓ ⊔ κ) where
    pub capacity : ℕ
    pub size : ℕ
    pub buckets : List (List (Node K V))

  module _ {K : Type ℓ} {V : Type κ} where
    -- `htable_create`, for callbacks of which none is NULL or some is; the inner `none` is NULL. The
    -- loop that sets the buckets up counts in an `int`, which overflows for 2 ^ 31 buckets or more.
    unfoldable pub create :
        (callbacks table_allocated buckets_allocated : Bool) → ℕ → Option (Option (HashTable K V))
    create false table_allocated buckets_allocated capacity = some none
    create true false buckets_allocated capacity = some none
    create true true false capacity = some none
    create true true true capacity =
        if ltb capacity (2 ^ 31)
        then some (some (record { capacity = capacity; size = 0; buckets = replicate capacity [] }))
        else none

    module _ (alloc_key : K → Option K) (alloc_value : V → Option V) where
      abbrev pub node_create : K → V → Option (Node K V)
      node_create key value = alloc_key key >>= λ key'.
          alloc_value value >>= λ value'. some (record { key = key'; value = value' })

    -- `kdlist_push_tail(&htable->buckets[htable_idx], &node->node)`
    abbrev pub push_node : HashTable K V → ℕ → Option (Node K V) → Option (HashTable K V × ℤ)
    push_node table idx none = some (table, negsuc 3)
    push_node table idx (some node) = get_elem? table.buckets idx >>= λ bucket. some (
      record {
        capacity = table.capacity;
        size = table.size;
        buckets = set table.buckets idx (bucket ++ node ∷ []);
      },
      pos 0,
    )

    module _ (hash : K → ℕ) (alloc_key : K → Option K) (alloc_value : V → Option V) where
      abbrev insert_into : HashTable K V → K → V → Option (HashTable K V × ℤ)
      insert_into table key value =
          if table.size == table.capacity
          then some (table, negsuc 1)
          else if not (ltb (hash key) table.capacity)
          then some (table, negsuc 2)
          else push_node table (hash key) (node_create alloc_key alloc_value key value)

      unfoldable pub insert :
          Option (HashTable K V) → Option K → Option V → Option (Option (HashTable K V) × ℤ)
      insert none key value = some (none, negsuc 0)
      insert (some table) none value = some (some table, negsuc 0)
      insert (some table) (some key) none = some (some table, negsuc 0)
      insert (some table) (some key) (some value) =
          insert_into table key value >>= λ out. some (some out.0, out.1)

    module _ (hash : K → ℕ) (cmp : K → K → ℤ) where
      abbrev pub is_match : K → Node K V → Bool
      is_match key node = is_zero (cmp key node.key)

      -- the loop of `htable_delete`: the nodes that stay
      abbrev pub kept : K → List (Node K V) → List (Node K V)
      kept key [] = []
      kept key (node ∷ nodes) = if is_match key node then kept key nodes else node ∷ kept key nodes

      -- and the nodes that are destroyed
      abbrev pub matching : K → List (Node K V) → List (Node K V)
      matching key [] = []
      matching key (node ∷ nodes) =
          if is_match key node then node ∷ matching key nodes else matching key nodes

      abbrev clear : HashTable K V → K → List (Node K V) → HashTable K V × List (Node K V) × ℤ
      clear table key [] = (table, [], negsuc 2)
      clear table key (node ∷ nodes) = (
        record {
          capacity = table.capacity;
          size = table.size;
          buckets = set table.buckets (hash key) (kept key (node ∷ nodes));
        },
        matching key (node ∷ nodes),
        negsuc 3,
      )

      -- the table, the nodes that are destroyed and the result
      abbrev delete_from : HashTable K V → K → Option (HashTable K V × List (Node K V) × ℤ)
      delete_from table key =
          if not (ltb (hash key) table.capacity)
          then some (table, [], negsuc 1)
          else (get_elem? table.buckets (hash key) >>= λ bucket. some (clear table key bucket))

      unfoldable pub delete :
          Option (HashTable K V) → Option K → Option (Option (HashTable K V) × List (Node K V) × ℤ)
      delete none key = some (none, [], negsuc 0)
      delete (some table) none = some (some table, [], negsuc 0)
      delete (some table) (some key) = delete_from table key >>= λ out.
          (let (table', nodes, status) = out in some (some table', nodes, status))

    -- The loops over the buckets, from `i` on for `n` rounds; `i` is an `int`.
    abbrev pub each_bucket {μ} :
        {A : Type μ}
        → (ℕ → List (Node K V) → List A)
        → ℕ
        → ℕ
        → List (List (Node K V))
        → Option (List A)
    each_bucket visit zero i buckets = some []
    each_bucket visit (suc n) i buckets =
        let more = each_bucket visit n (i + 1) buckets in
        let rest = if ltb (i + 1) (2 ^ 31) then more else none in
        get_elem? buckets i >>= λ bucket. rest >>= λ lines. some (visit i bucket ++ lines)

    -- the nodes that are freed, with their keys and values
    unfoldable pub destroy : Option (HashTable K V) → Option (List (Node K V))
    destroy none = some []
    destroy (some table) = each_bucket (λ i bucket. bucket) table.capacity 0 table.buckets

  pub data Line (K : Type ℓ) (V : Type κ) : Type (ℓ ⊔ κ) where
    capacity_line : ℕ → Line K V
    size_line : ℕ → Line K V
    bucket_id : ℕ → Line K V
    empty_line : Line K V
    entry : K → V → Line K V

  module _ {K : Type ℓ} {V : Type κ} where
    abbrev pub entry_lines : List (Node K V) → List (Line K V)
    entry_lines [] = []
    entry_lines (node ∷ nodes) = entry node.key node.value ∷ entry_lines nodes

    abbrev pub bucket_lines : ℕ → List (Node K V) → List (Line K V)
    bucket_lines i [] = bucket_id i ∷ empty_line ∷ []
    bucket_lines i (node ∷ nodes) = bucket_id i ∷ entry_lines (node ∷ nodes)

    unfoldable pub print : Option (HashTable K V) → Option (List (Line K V))
    print none = some []
    print (some table) = each_bucket bucket_lines table.capacity 0 table.buckets >>= λ lines.
        some (capacity_line table.capacity ∷ size_line table.size ∷ lines)
