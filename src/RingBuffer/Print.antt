-- ===== src/RingBuffer/Print.antt =====
-- What `ring_buffer_print` hands to its callback.
use data_structures.Prelude.{
  ℕ, zero, suc, ◌+◌, ◌%◌, ◌≤◌, ◌≡◌, refl, ap, arith, some, inl, inr, List, [], ◌∷◌, map, Bool-cases,
  ◌==◌, get_or, get_elem?-eq-get_or,
}
use data_structures.RingBuffer.{Ring, capacity, add_u32, print, print_loop}
use data_structures.RingBuffer.Invariant.{IsValid}
use data_structures.RingBuffer.Refines.{contents, window}

module _ {ℓ} {A : Type ℓ} where
  -- the `n` entries from index `h` on, each with its index
  abbrev pub indexed : A → List A → ℕ → ℕ → List (ℕ × A)
  indexed d entries h zero = []
  indexed d entries h (suc n) = (h, get_or entries h d) ∷ indexed d entries ((h + 1) % capacity) n

  map-indexed :
      (d : A) (entries : List A) (h n : ℕ)
      → map (λ p. p.1) (indexed d entries h n) ≡ window d entries h n
  map-indexed d entries h zero = refl
  map-indexed d entries h (suc n) =
      ap (λ xs. get_or entries h d ∷ xs) (map-indexed d entries ((h + 1) % capacity) n)

  print_loop-indexed :
      (d : A) (r : Ring A) (n i : ℕ)
      → IsValid r
      → i + n ≤ r.size
      → print_loop n i r ≡ some (indexed d r.entries ((r.head + i) % capacity) n)
  unfolding print_loop
  print_loop-indexed d r zero i v h = refl
  print_loop-indexed d r (suc n) i v h =
      let index : add_u32 r.head i % capacity ≡ (r.head + i) % capacity = omega arith in
      let next : (r.head + (i + 1)) % capacity ≡ ((r.head + i) % capacity + 1) % capacity =
        omega arith in
      rw (
        index,
        get_elem?-eq-get_or r.entries ((r.head + i) % capacity) d (omega arith),
        print_loop-indexed d r n (i + 1) v (omega arith),
        next,
      )

  -- `ring_buffer_print` on a valid ring reads nothing out of range, and hands the callback each
  -- entry from the head on with its index, going round at the capacity; the entries are the
  -- contents, oldest first.
  pub print-contents :
      (d : A) {r : Ring A}
      → IsValid r
      → (print r ≡ some (indexed d r.entries r.head r.size))
        × (map (λ p. p.1) (indexed d r.entries r.head r.size) ≡ contents d r)
  unfolding print
  print-contents d {r} v = (
    elim (Bool-cases (r.size == 0)) [
      | inl none_left ↦ let zero_size : r.size ≡ 0 = ground arith in rw none_left (rw zero_size)
      | inr more ↦
          let start : (r.head + 0) % capacity ≡ r.head = omega arith in
          rw (more, print_loop-indexed d r r.size 0 v (omega arith), start)
    ],
    map-indexed d r.entries r.head r.size,
  )
