-- ===== src/HashTable/Insert.antt =====
-- What `htable_insert` does to the entries of a table.
use mathlib.Core.Option.{some-injective}
use data_structures.Prelude.{
  ℕ, ◌+◌, ◌≤◌, ◌<◌, ◌≡◌, ◌≢◌, refl, ap, arith, sym, ◌∙◌, false, Option, none, some, List, [], ◌∷◌,
  ◌++◌, append_assoc, All, All-append, All-mono, length-set, set, ltb, ◌==◌, inl, inr, Bool-cases,
  Option-cases, ℤ, pos, negsuc,
}
use data_structures.HashTable.{Node, HashTable, node_create, insert, push_node}
use data_structures.HashTable.Entries.{entries, IsValid, Placed-At, set-Placed}

module _ {ℓ κ} {K : Type ℓ} {V : Type κ} (hash : K → ℕ) (alloc_key : K → Option K)
    (alloc_value : V → Option V) where
  -- The entry stands behind every entry with its hash, and all others stay in their order.
  pub record Added (table table' : HashTable K V) (node : Node K V) : Type (ℓ ⊔ κ) where
    pub front : List (Node K V)
    pub back : List (Node K V)
    pub before : entries table.buckets ≡ front ++ back
    pub after : entries table'.buckets ≡ front ++ node ∷ back
    pub last : All (λ other. hash other.key ≢ hash node.key) back
    pub valid : IsValid hash table'
    pub same_size : table'.size ≡ table.size
    pub same_capacity : table'.capacity ≡ table.capacity

  -- What an insertion did: an entry that was copied is added with 0, or the table stays as it was.
  pub data Outcome (table : HashTable K V) (key : K) (value : V)
      (answer : Option (Option (HashTable K V) × ℤ)) : Type (ℓ ⊔ κ) where
    added :
        (table' : HashTable K V) (node : Node K V)
        → answer ≡ some (some table', pos 0)
        → node_create alloc_key alloc_value key value ≡ some node
        → (table.size == table.capacity) ≡ false
        → Added table table' node
        → Outcome table key value answer
    full :
        answer ≡ some (some table, negsuc 1)
        → table.size ≡ table.capacity
        → Outcome table key value answer
    out_of_range :
        answer ≡ some (some table, negsuc 2)
        → table.capacity ≤ hash key
        → Outcome table key value answer
    no_memory :
        answer ≡ some (some table, negsuc 3)
        → node_create alloc_key alloc_value key value ≡ none
        → Outcome table key value answer

  create-hash :
      (key : K) (value : V) (node : Node K V)
      → ((k k' : K) → alloc_key k ≡ some k' → hash k' ≡ hash k)
      → node_create alloc_key alloc_value key value ≡ some node
      → hash node.key ≡ hash key
  create-hash key value node copies e = elim (Option-cases (alloc_key key)) [
    | inl fails ↦ cc (rw fails at e)
    | inr (key', copy) ↦ elim (Option-cases (alloc_value value)) [
      | inl fails ↦ cc (rw (copy, fails) at e)
      | inr (value', copy') ↦
          let made : some (record { key = key'; value = value' }) ≡ some node =
            rw (copy, copy') at e in
          ap (λ n. hash n.key)
            (sym (some-injective (record { key = key'; value = value' }) node made))
          ∙ copies key key' copy
    ]
  ]

  push-Added :
      (table : HashTable K V) (idx : ℕ) (node : Node K V)
      → IsValid hash table
      → idx < table.capacity
      → hash node.key ≡ idx
      → (table' : HashTable K V) × (push_node table idx (some node) ≡ some (table', pos 0))
        × Added table table' node
  push-Added table idx node (e, placed) q h =
      let at = Placed-At hash 0 idx table.buckets placed (omega (arith, e)) in
      let bucket = at.bucket ++ node ∷ [] in
      let index : 0 + idx ≡ hash node.key = omega (arith, h) in
      (
        record {
          capacity = table.capacity;
          size = table.size;
          buckets = set table.buckets idx bucket;
        },
        rw at.found refl,
        record {
          front = at.front ++ at.bucket;
          back = at.back;
          before = at.whole;
          after = at.all bucket ∙ shift at.front at.bucket at.back;
          last =
              All-mono (λ other. hash other.key ≢ 0 + idx)
                (λ other d same. d (omega (arith, same, h))) at.back at.back_other;
          valid = (
            length-set table.buckets idx bucket ∙ e,
            set-Placed hash 0 idx table.buckets bucket placed (
                All-append (λ node. hash node.key ≡ 0 + idx) at.bucket (node ∷ []) at.placed
                  (omega (arith, h), tt)),
          );
          same_size = refl;
          same_capacity = refl;
        },
      )
    where
      shift : (a b c : List (Node K V)) → a ++ (b ++ node ∷ []) ++ c ≡ a ++ b ++ node ∷ c
      shift a b c =
          ap (λ l. l ++ c) (sym (append_assoc a b (node ∷ [])))
          ∙ append_assoc (a ++ b) (node ∷ []) c

  -- If copies of a key have its hash, then htable_insert, on a table with each entry in the
  -- bucket of its hash, either returns 0 and adds the copied entry behind all entries with its
  -- hash, with every other entry in its order and the same size and capacity; or leaves the
  -- table alone and returns -2, where the size is the capacity, -3, where the hash is out of
  -- range, or -4, where a copy failed.
  pub htable_insert_correct :
      (table : HashTable K V) (key : K) (value : V)
      → ((k k' : K) → alloc_key k ≡ some k' → hash k' ≡ hash k)
      → IsValid hash table
      → Outcome table key value
          (insert hash alloc_key alloc_value (some table) (some key) (some value))
  unfolding insert
  htable_insert_correct table key value copies valid =
      elim (Bool-cases (table.size == table.capacity)) [
        | inl at_capacity ↦ full (rw at_capacity refl) (ground arith)
        | inr room ↦ elim (Bool-cases (ltb (hash key) table.capacity)) [
          | inr outside ↦ out_of_range (rw (room, outside) refl) (ground arith)
          | inl inside ↦ elim (Option-cases (node_create alloc_key alloc_value key value)) [
            | inl fails ↦ no_memory (rw (room, inside, fails) refl) fails
            | inr (node, made) ↦
                let h = create-hash key value node copies made in
                let (table', pushed, v) = push-Added table (hash key) node valid (ground arith) h in
                added table' node (rw (room, inside, made) (rw pushed refl)) made room v
          ]
        ]
      ]
