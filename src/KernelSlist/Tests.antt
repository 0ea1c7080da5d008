-- ===== src/KernelSlist/Tests.antt =====
-- Runs on a small chain, and the theorems at it.
use data_structures.Prelude.{
  ℕ, ◌<◌, ◌≡◌, refl, arith, true, Option, none, some, List, [], ◌∷◌, ◌++◌, length, if◌then◌else◌,
  ◌==◌,
}
use data_structures.KernelSlist.{
  Links, pop_head, pop_tail, push_head, push_tail, push_after, replace, print, is_last, walk,
}
use data_structures.KernelSlist.Chains.{IsChain}
use data_structures.KernelSlist.Replace.{kslist_replace_correct}
use data_structures.KernelSlist.Correct.{kslist_pushes_correct, kslist_pops_correct}

-- the nodes 1 and 2, in the list at 0
abbrev sample : Links
sample c = if c == 0 then some 1 else if c == 1 then some 2 else none

sample-IsChain : IsChain sample 0 (1 ∷ 2 ∷ [])
sample-IsChain =
    ((refl, (refl, refl)), ((omega arith, (omega arith, tt)), ((omega arith, tt), (tt, tt))))

print-sample : print 3 sample 0 ≡ some (1 ∷ 2 ∷ [])
unfolding print
print-sample = refl

last-sample : is_last 3 sample 0 2 ≡ some true
unfolding is_last walk
last-sample = refl

abbrev shown : Option Links → Option (List ℕ)
shown none = none
shown (some next) = print 3 next 0

replace-sample : shown (replace 3 sample 0 1 7) ≡ some (7 ∷ 2 ∷ [])
unfolding print replace
replace-sample = refl

kslist_pushes_correct_example :
    (next' : Links) × (push_tail 3 sample 0 3 ≡ some next')
    × IsChain next' 0 (1 ∷ 2 ∷ 3 ∷ [])
    × IsChain (push_head sample 0 3) 0 (3 ∷ 1 ∷ 2 ∷ [])
    × IsChain (push_after sample 1 3) 0 (1 ∷ 3 ∷ 2 ∷ [])
kslist_pushes_correct_example =
    kslist_pushes_correct sample 0 (1 ∷ []) (2 ∷ []) 3 3 sample-IsChain
      (omega arith, (omega arith, (omega arith, tt))) (omega arith)

kslist_pops_correct_example :
    (IsChain sample 0 []
      → (pop_head sample 0 ≡ (sample, none)) × (pop_tail 2 sample 0 ≡ some (sample, none)))
    × ((x : ℕ) (xs : List ℕ)
        → IsChain sample 0 (x ∷ xs)
        → (next' : Links) × (pop_head sample 0 ≡ (next', some x)) × IsChain next' 0 xs)
    × ((xs : List ℕ) (x : ℕ)
        → IsChain sample 0 (xs ++ x ∷ [])
        → length xs < 2
        → (next' : Links) × (pop_tail 2 sample 0 ≡ some (next', some x)) × IsChain next' 0 xs)
kslist_pops_correct_example = kslist_pops_correct sample 0 2

kslist_replace_correct_example :
    (next' : Links) × (replace 2 sample 0 2 7 ≡ some next') × IsChain next' 0 (1 ∷ 7 ∷ [])
kslist_replace_correct_example =
    kslist_replace_correct sample 0 (1 ∷ []) 2 [] 7 2 sample-IsChain
      (omega arith, (omega arith, (omega arith, tt))) (omega arith)
