-- ===== src/KernelList.antt =====
-- src/list/kdoubly_linked_list.c: rings of linked nodes. An address is a number; the links are what
-- the nodes at all addresses hold, so that a node may belong to any entry. No operation allocates.
pub mod Rings
pub mod Splice
pub mod Unlink
pub mod Correct
mod Tests
use data_structures.Prelude.{ℕ, Bool, Option, none, some, if◌then◌else◌, ◌==◌}

-- the fields of `kdlist_node_t` at each address
pub record Links : Type 0 where
  pub next : ℕ → ℕ
  pub prev : ℕ → ℕ

-- `a->next = v`
abbrev pub set_next : Links → ℕ → ℕ → Links
set_next m a v = record { next = λ c. if c == a then v else m.next c; prev = m.prev }

-- `a->prev = v`
abbrev pub set_prev : Links → ℕ → ℕ → Links
set_prev m a v = record { next = m.next; prev = λ c. if c == a then v else m.prev c }

unfoldable pub head_init : Links → ℕ → Links
head_init m head = let m1 = set_next m head head in set_prev m1 head head

unfoldable pub is_empty : Links → ℕ → Bool
is_empty m head = m.next head == head

unfoldable pub is_first : Links → ℕ → ℕ → Bool
is_first m head node = m.next head == node

unfoldable pub is_last : Links → ℕ → ℕ → Bool
is_last m head node = m.prev head == node

unfoldable pub get_head : Links → ℕ → ℕ
get_head m head = m.next head

unfoldable pub get_tail : Links → ℕ → ℕ
get_tail m head = m.prev head

unfoldable pub pop_head : Links → ℕ → Links × Option ℕ
unfolding is_empty
pop_head m head =
    let node = m.next head in
    let m1 = set_next m head (m.next node) in
    let m2 = set_prev m1 (m1.next node) head in
    if is_empty m head then (m, none) else (m2, some node)

unfoldable pub pop_tail : Links → ℕ → Links × Option ℕ
unfolding is_empty
pop_tail m head =
    let node = m.prev head in
    let m1 = set_prev m head (m.prev node) in
    let m2 = set_next m1 (m1.prev node) head in
    if is_empty m head then (m, none) else (m2, some node)

-- the branch of both pushes for an empty list
abbrev push_only : Links → ℕ → ℕ → Links
push_only m head node =
    let m1 = set_next m head node in
    let m2 = set_prev m1 head node in let m3 = set_next m2 node head in set_prev m3 node head

unfoldable pub push_head : Links → ℕ → ℕ → Links
unfolding is_empty
push_head m head node =
    let m1 = set_prev m (m.next head) node in
    let m2 = set_next m1 node (m1.next head) in
    let m3 = set_next m2 head node in
    let m4 = set_prev m3 node head in if is_empty m head then push_only m head node else m4

unfoldable pub push_tail : Links → ℕ → ℕ → Links
unfolding is_empty
push_tail m head node =
    let m1 = set_prev m node (m.prev head) in
    let m2 = set_next m1 (m1.prev head) node in
    let m3 = set_prev m2 head node in
    let m4 = set_next m3 node head in if is_empty m head then push_only m head node else m4

unfoldable pub push_after : Links → ℕ → ℕ → Links
push_after m base node =
    let m1 = set_prev m (m.next base) node in
    let m2 = set_prev m1 node base in
    let m3 = set_next m2 node (m2.next base) in set_next m3 base node

unfoldable pub delete : Links → ℕ → Links
delete m node =
    let m1 = set_next m (m.prev node) (m.next node) in set_prev m1 (m1.next node) (m1.prev node)
