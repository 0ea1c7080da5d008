-- ===== src/HashTable/Entries.antt =====
-- The nodes of a table in the order of its buckets, and one bucket among them.
use data_structures.Prelude.{
  ℕ, zero, suc, ◌+◌, ◌<◌, ◌≡◌, ◌≢◌, refl, ap, arith, sym, ◌∙◌, some, List, [], ◌∷◌, ◌++◌,
  append_assoc, All, All-append, All-mono, length, get_elem?, set, replicate,
}
use data_structures.HashTable.{Node, HashTable}

module _ {ℓ κ} {K : Type ℓ} {V : Type κ} where
  abbrev pub entries : List (List (Node K V)) → List (Node K V)
  entries [] = []
  entries (bucket ∷ buckets) = bucket ++ entries buckets

  before : (a b c d : List (Node K V)) → a ++ (b ++ c ++ d) ≡ a ++ b ++ c ++ d
  before a b c d = sym (append_assoc a (b ++ c) d) ∙ ap (λ l. l ++ d) (sym (append_assoc a b c))

  module _ (hash : K → ℕ) where
    -- Each node stands in the bucket of its hash; `i` is the index of the first bucket.
    abbrev pub Placed : ℕ → List (List (Node K V)) → Type (ℓ ⊔ κ)
    Placed i [] = Unit
    Placed i (bucket ∷ buckets) = All (λ node. hash node.key ≡ i) bucket × Placed (i + 1) buckets

    abbrev pub IsValid : HashTable K V → Type (ℓ ⊔ κ)
    IsValid table = (length table.buckets ≡ table.capacity) × Placed 0 table.buckets

    pub empty-Placed :
        (n i : ℕ) (buckets : List (List (Node K V))) → buckets ≡ replicate n [] → Placed i buckets
    empty-Placed zero i buckets e = rw e tt
    empty-Placed (suc n) i buckets e = rw e (tt, empty-Placed n (i + 1) (replicate n []) refl)

    -- The bucket at `j`, and the nodes of the others before and behind it.
    pub record At (i j : ℕ) (buckets : List (List (Node K V))) : Type (ℓ ⊔ κ) where
      pub bucket : List (Node K V)
      pub front : List (Node K V)
      pub back : List (Node K V)
      pub found : get_elem? buckets j ≡ some bucket
      pub all : (b : List (Node K V)) → entries (set buckets j b) ≡ front ++ b ++ back
      pub whole : entries buckets ≡ front ++ bucket ++ back
      pub placed : All (λ node. hash node.key ≡ i + j) bucket
      pub front_other : All (λ node. hash node.key ≢ i + j) front
      pub back_other : All (λ node. hash node.key ≢ i + j) back

    later-Placed :
        (i k : ℕ) (buckets : List (List (Node K V)))
        → Placed i buckets
        → k < i
        → All (λ node. hash node.key ≢ k) (entries buckets)
    later-Placed i k [] h q = tt
    later-Placed i k (bucket ∷ buckets) (here, rest) q =
        All-append (λ node. hash node.key ≢ k) bucket (entries buckets)
          (All-mono (λ node. hash node.key ≡ i) (λ node e d. omega (arith, e, d)) bucket here)
          (later-Placed (i + 1) k buckets rest (omega arith))

    pub Placed-At :
        (i j : ℕ) (buckets : List (List (Node K V)))
        → Placed i buckets
        → j < length buckets
        → At i j buckets
    Placed-At i j [] h q = absurd (omega arith)
    Placed-At i zero (bucket ∷ buckets) (here, rest) q = record {
      bucket = bucket;
      front = [];
      back = entries buckets;
      found = refl;
      all = λ b. refl;
      whole = refl;
      placed = All-mono (λ node. hash node.key ≡ i) (λ node e. omega (arith, e)) bucket here;
      front_other = tt;
      back_other =
          All-mono (λ node. hash node.key ≢ i) (λ node d e. d (omega (arith, e))) (entries buckets)
            (later-Placed (i + 1) i buckets rest (omega arith));
    }
    Placed-At i (suc j) (bucket ∷ buckets) (here, rest) q =
        let at = Placed-At (i + 1) j buckets rest (omega arith) in
        let index : i + 1 + j ≡ i + suc j = omega arith in
        record {
          bucket = at.bucket;
          front = bucket ++ at.front;
          back = at.back;
          found = at.found;
          all = λ b. ap (λ ns. bucket ++ ns) (at.all b) ∙ before bucket at.front b at.back;
          whole = ap (λ ns. bucket ++ ns) at.whole ∙ before bucket at.front at.bucket at.back;
          placed = rw (← index) at.placed;
          front_other =
              All-append (λ node. hash node.key ≢ i + suc j) bucket at.front
                (All-mono (λ node. hash node.key ≡ i) (λ node e d. omega (arith, e, d)) bucket here)
                (rw (← index) at.front_other);
          back_other = rw (← index) at.back_other;
        }

    pub set-Placed :
        (i j : ℕ) (buckets : List (List (Node K V))) (b : List (Node K V))
        → Placed i buckets
        → All (λ node. hash node.key ≡ i + j) b
        → Placed i (set buckets j b)
    set-Placed i j [] b h k = tt
    set-Placed i zero (bucket ∷ buckets) b (here, rest) k =
        (All-mono (λ node. hash node.key ≡ i + 0) (λ node e. omega (arith, e)) b k, rest)
    set-Placed i (suc j) (bucket ∷ buckets) b (here, rest) k =
        let index : i + 1 + j ≡ i + suc j = omega arith in
        (here, set-Placed (i + 1) j buckets b rest (rw index k))
