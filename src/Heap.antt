-- ===== src/Heap.antt =====
-- The binary heaps of src/heap/min_heap.c and src/heap/max_heap.c. The two files are the same text
-- but for the names and the sign that the sift loops test. What they share is modelled once, over
-- the test `above p c`: "the parent `p` may not stand over the child `c`". `Heap.Min` and
-- `Heap.Max` put in each file's own test of its comparison callback.
pub mod Array
pub mod Order
pub mod Up
pub mod Down
pub mod Operations
pub mod Correct
pub mod Insert
pub mod Remove
pub mod Min
pub mod Max
mod Tests
use data_structures.Prelude.{
  ℕ, zero, suc, ◌+◌, ◌-◌, ◌*◌, ◌/◌, ◌^◌, Bool, true, false, Option, none, some, List, ◌==◌, ltb,
  leb, if◌then◌else◌, ◌&&◌, get_elem?, set, ◌>>=◌, ℤ, pos, negsuc, is_neg, is_pos,
}

-- PARENT_IDX; `(0 - 1) / 2` is 0 in C too.
abbrev pub parent_idx : ℕ → ℕ
parent_idx x = (x - 1) / 2

-- A result of `int` arithmetic; beyond INT_MAX C has none.
abbrev pub as_int : ℕ → Option ℕ
as_int n = if ltb n (2 ^ 31) then some n else none

abbrev pub left_idx : ℕ → Option ℕ
left_idx x = as_int (2 * x + 1)

abbrev pub right_idx : ℕ → Option ℕ
right_idx x = as_int (2 * x + 2)

module _ {ℓ} {A : Type ℓ} where
  -- `none` is an access out of range.
  pub swap : List A → ℕ → ℕ → Option (List A)
  swap buf idx1 idx2 = do
    x ← get_elem? buf idx1
    y ← get_elem? buf idx2
    some (set (set buf idx1 y) idx2 x)

  module _ (above : A → A → Bool) where
    -- `none` also means that the fuel ran out; `heapify_up` gives enough.
    up_loop : ℕ → List A → ℕ → Option (List A)
    up_loop zero heap idx = none
    up_loop (suc k) heap idx =
        let pidx = parent_idx idx in
        let rise = swap heap pidx idx >>= λ heap'. up_loop k heap' pidx in
        let step = get_elem? heap pidx >>= λ p.
        get_elem? heap idx >>= λ c. if above p c then rise else some heap in
        if ltb 0 idx then step else some heap

    unfoldable pub heapify_up : List A → ℕ → Option (List A)
    unfolding up_loop swap
    heapify_up heap idx = up_loop (idx + 1) heap idx

    -- `tmp` after the test of one child: `&&` reads the child only if it exists.
    choose : List A → ℕ → ℕ → ℕ → Option ℕ
    choose heap size tmp child =
        if ltb child size
        then (get_elem? heap tmp >>= λ t.
            get_elem? heap child >>= λ c. some (if above t c then child else tmp))
        else some tmp

    down_loop : ℕ → List A → ℕ → ℕ → Option (List A)
    down_loop zero heap idx size = none
    down_loop (suc k) heap idx size = left_idx idx >>= λ lidx. right_idx idx >>= λ ridx.
        let step = choose heap size idx lidx >>= λ tmp. choose heap size tmp ridx >>= λ tmp'.
        let sink = swap heap idx tmp' >>= λ heap'. down_loop k heap' tmp' size in
        if tmp' == idx then some heap else sink in
        if leb size lidx && leb size ridx then some heap else step

    unfoldable pub heapify_down : List A → ℕ → ℕ → Option (List A)
    unfolding down_loop choose swap
    heapify_down heap idx size = down_loop (size + 1) heap idx size
