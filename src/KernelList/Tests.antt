-- ===== src/KernelList/Tests.antt =====
-- Runs on a small ring, and the theorems at it.
use data_structures.Prelude.{
  ℕ, ◌≡◌, refl, arith, none, some, List, [], ◌∷◌, ◌++◌, if◌then◌else◌, ◌==◌,
}
use data_structures.KernelList.{
  Links, get_head, pop_head, pop_tail, push_head, push_tail, push_after, delete,
}
use data_structures.KernelList.Rings.{IsRing}
use data_structures.KernelList.Correct.{pushes_correct, pops_correct, kdlist_delete_correct}

-- the nodes 1 and 2, in the list at 0
abbrev sample : Links
sample = record {
  next = λ c. if c == 0 then 1 else if c == 1 then 2 else 0;
  prev = λ c. if c == 0 then 2 else if c == 1 then 0 else 1;
}

sample-IsRing : IsRing sample 0 (1 ∷ 2 ∷ [])
sample-IsRing = (
  ((refl, refl), ((refl, refl), (refl, refl))),
  ((omega arith, (omega arith, tt)), ((omega arith, tt), (tt, tt))),
)

head-sample : get_head sample 0 ≡ 1
unfolding get_head
head-sample = refl

-- `kdlist_get_head` of an empty list is the head itself.
head-empty : get_head (record { next = λ c. c; prev = λ c. c }) 5 ≡ 5
unfolding get_head
head-empty = refl

pushes_correct_example :
    IsRing (push_head sample 0 3) 0 (3 ∷ 1 ∷ 2 ∷ [])
    × IsRing (push_tail sample 0 3) 0 (1 ∷ 2 ∷ 3 ∷ [])
    × IsRing (push_after sample 1 3) 0 (1 ∷ 3 ∷ 2 ∷ [])
pushes_correct_example =
    pushes_correct sample 0 (1 ∷ []) (2 ∷ []) 3 sample-IsRing
      (omega arith, (omega arith, (omega arith, tt)))

pops_correct_example :
    (IsRing sample 0 []
      → (pop_head sample 0 ≡ (sample, none)) × (pop_tail sample 0 ≡ (sample, none)))
    × ((x : ℕ) (xs : List ℕ)
        → IsRing sample 0 (x ∷ xs)
        → (m' : Links) × (pop_head sample 0 ≡ (m', some x)) × IsRing m' 0 xs)
    × ((xs : List ℕ) (x : ℕ)
        → IsRing sample 0 (xs ++ x ∷ [])
        → (m' : Links) × (pop_tail sample 0 ≡ (m', some x)) × IsRing m' 0 xs)
pops_correct_example = pops_correct sample 0

kdlist_delete_correct_example : IsRing (delete sample 1) 0 (2 ∷ [])
kdlist_delete_correct_example = kdlist_delete_correct sample 0 [] 1 (2 ∷ []) sample-IsRing
