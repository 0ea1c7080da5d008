-- ===== src/KernelSlist/Replace.antt =====
-- `kslist_replace` in src/list/ksingly_linked_list.c.
use data_structures.Prelude.{
  ℕ, zero, suc, ◌<◌, ◌≡◌, ◌≢◌, refl, sym, ◌∙◌, arith, some, List, [], ◌∷◌, ◌++◌, All,
  All-append_left, All-append_right, ◌==◌, false, true, length,
}
use data_structures.KernelList.Rings.{Distinct, last_of, last_of-All}
use data_structures.KernelList.Unlink.{All-drop}
use data_structures.KernelSlist.{Links, set_next, replace_loop, replace}
use data_structures.KernelSlist.Chains.{
  Chain, IsChain, set_same, set_other, insert-IsChain, remove-IsChain,
}

replace_loop-found :
    (next : Links) (old new s : ℕ) (xs ys : List ℕ) (fuel : ℕ)
    → Chain next s (xs ++ old ∷ ys)
    → Distinct (xs ++ old ∷ ys)
    → length xs < fuel
    → replace_loop fuel next old new s
      ≡ some (set_next (set_next next new (next old)) (last_of s xs) (some new))
unfolding replace_loop
replace_loop-found next old new s xs ys zero h d q = absurd (omega arith)
replace_loop-found next old new s [] ys (suc fuel) (e, h) d q =
    let same : (old == old) ≡ true = ground arith in rw (e, replace_loop) (rw same refl)
replace_loop-found next old new s (x ∷ xs) ys (suc fuel) (e, h) (dx, d) q =
    let later = (All-append_right (λ c. c ≢ x) xs (old ∷ ys) dx).0 in
    let other : (x == old) ≡ false = ground arith in
    rw (e, replace_loop) (rw other (replace_loop-found next old new x xs ys fuel h d (omega arith)))

-- In a chain, kslist_replace of a node by one that is not in it ends, with fuel for the nodes in
-- front of the old one, and leaves a chain in which the new node stands in the place of the old
-- one, and all others are in their order.
pub kslist_replace_correct :
    (next : Links) (head : ℕ) (xs : List ℕ) (old : ℕ) (ys : List ℕ) (new fuel : ℕ)
    → IsChain next head (xs ++ old ∷ ys)
    → All (λ c. c ≢ new) (head ∷ xs ++ old ∷ ys)
    → length xs < fuel
    → (next' : Links) × (replace fuel next head old new ≡ some next')
      × IsChain next' head (xs ++ new ∷ ys)
unfolding replace
kslist_replace_correct next head xs old ys new fuel h (hn, n) q =
    let a = last_of head xs in
    let without = set_next next a (next old) in
    let next' = set_next (set_next next new (next old)) a (some new) in
    let fresh =
      last_of-All (λ c. c ≢ new) head xs hn (All-append_left (λ c. c ≢ new) xs (old ∷ ys) n) in
    let removed = remove-IsChain next head xs old ys h in
    (
      next',
      replace_loop-found next old new head xs ys fuel h.0 h.1.1 q,
      insert-IsChain without next' head xs ys new removed (hn, All-drop (λ c. c ≢ new) xs old ys n)
          (set_same (set_next next new (next old)) a (some new))
          (set_other (set_next next new (next old)) a (some new) new (λ e. fresh (sym e))
            ∙ set_same next new (next old)
            ∙ sym (set_same next a (next old)))
          (λ c p r.
            set_other (set_next next new (next old)) a (some new) c p
            ∙ set_other next new (next old) c r
            ∙ sym (set_other next a (next old) c p)),
    )
