-- ===== src/KernelSlist.antt =====
-- src/list/ksingly_linked_list.c: chains of linked nodes, each named by its address; `none` as a
-- link is NULL. A loop along the links takes fuel; `none` as a result is that the fuel is out.
pub mod Chains
pub mod Correct
pub mod Replace
mod Tests
use data_structures.Prelude.{
  ℕ, zero, suc, Bool, true, false, Option, none, some, List, [], ◌∷◌, if◌then◌else◌, ◌==◌, ◌>>=◌,
}

-- the field of `kslist_node_t` at each address
abbrev pub Links : Type 0
Links = ℕ → Option ℕ

-- `a->next = v`
abbrev pub set_next : Links → ℕ → Option ℕ → Links
set_next next a v c = if c == a then v else next c

abbrev is_null : Option ℕ → Bool
is_null none = true
is_null (some a) = false

unfoldable pub head_init : Links → ℕ → Links
head_init next head = set_next next head none

unfoldable pub is_empty : Links → ℕ → Bool
is_empty next head = is_null (next head)

abbrev points_to : Option ℕ → ℕ → Bool
points_to none node = false
points_to (some a) node = a == node

unfoldable pub is_first : Links → ℕ → ℕ → Bool
is_first next head node = points_to (next head) node

-- `for (; end->next; end = end->next)`
unfoldable pub walk : ℕ → Links → ℕ → Option ℕ
walk zero next end = none
walk (suc fuel) next end = elim (next end) [ none ↦ some end | some a ↦ walk fuel next a ]

unfoldable pub get_tail : ℕ → Links → ℕ → Option ℕ
get_tail fuel next head = walk fuel next head

unfoldable pub is_last : ℕ → Links → ℕ → ℕ → Option Bool
is_last fuel next head node = walk fuel next head >>= λ end. some (end == node)

unfoldable pub get_head : Links → ℕ → Option ℕ
get_head next head = next head

-- `none` in the middle of a pair is NULL.
unfoldable pub pop_head : Links → ℕ → Links × Option ℕ
pop_head next head = elim (next head) [
  | none ↦ (next, none)
  | some node ↦ (set_next next head (next node), some node)
]

-- the loop of `kslist_pop_tail`: the last node and the one before
unfoldable pub walk_two : ℕ → Links → ℕ → ℕ → Option (ℕ × ℕ)
walk_two zero next prev node = none
walk_two (suc fuel) next prev node = elim (next node) [
  | none ↦ some (prev, node)
  | some a ↦ walk_two fuel next node a
]

-- The first step of that loop is from the head, before which there is no node.
unfoldable pub pop_tail : ℕ → Links → ℕ → Option (Links × Option ℕ)
pop_tail fuel next head = elim (next head) [
  | none ↦ some (next, none)
  | some a ↦ walk_two fuel next head a >>= λ out. some (set_next next out.0 none, some out.1)
]

unfoldable pub push_head : Links → ℕ → ℕ → Links
push_head next head node = elim (next head) [
  | none ↦ set_next (set_next next head (some node)) node none
  | some a ↦ set_next (set_next next node (some a)) head (some node)
]

unfoldable pub push_tail : ℕ → Links → ℕ → ℕ → Option Links
unfolding walk
push_tail fuel next head node = elim (next head) [
  | none ↦ some (set_next (set_next next head (some node)) node none)
  | some a ↦
      walk fuel next head >>= λ prev. some (set_next (set_next next prev (some node)) node none)
]

unfoldable pub push_after : Links → ℕ → ℕ → Links
push_after next base node = set_next (set_next next node (next base)) base (some node)

-- the loop of `kslist_replace` behind `prev`
unfoldable pub replace_loop : ℕ → Links → ℕ → ℕ → ℕ → Option Links
replace_loop zero next old new prev = none
replace_loop (suc fuel) next old new prev = elim (next prev) [
  | none ↦ some next
  | some node ↦
      if node == old
      then some (set_next (set_next next new (next old)) prev (some new))
      else replace_loop fuel next old new node
]

unfoldable pub replace : ℕ → Links → ℕ → ℕ → ℕ → Option Links
unfolding replace_loop
replace fuel next head old new = replace_loop fuel next old new head

-- The nodes that the callback is given.
unfoldable pub print : ℕ → Links → ℕ → Option (List ℕ)
print zero next a = none
print (suc fuel) next a = elim (next a) [
  | none ↦ some []
  | some node ↦ print fuel next node >>= λ rest. some (node ∷ rest)
]
