-- ===== src/Trie.antt =====
-- src/tree/trie.c and include/tree/trie.h: insertion, search, the longest prefix and deletion. A
-- string is the list of its characters, without the terminator. `none` is a read or write outside
-- of an array, through NULL or of a freed node. Whether `malloc` succeeds is a parameter.
pub mod Words
pub mod Insert
pub mod Prefix
pub mod Delete
pub mod Lookup
pub mod Listing
pub mod Leafs
pub mod Lookups
mod Tests
pub mod Fill
pub mod Regex
use data_structures.Prelude.{
  ℕ, zero, suc, ◌+◌, ◌-◌, ◌%◌, Bool, true, false, not, ◌&&◌, Option, none, some, List, [], ◌∷◌,
  if◌then◌else◌, ltb, ◌==◌, all_below, ◌>>=◌, ℤ, pos, negsuc,
}

-- `trie_node_t`, or NULL, or what a pointer to a freed node leads to; `children` is the array, of
-- which the first `children_no` entries are there.
pub data Node : Type 0 where
  null : Node
  freed : Node
  node : (children : ℕ → Node) → (is_leaf : Bool) → Node

abbrev pub children_no : ℕ
children_no = 26

abbrev pub is_null : Node → Bool
is_null null = true
is_null freed = false
is_null (node children is_leaf) = false

-- (uint8_t)(c - 'a')
abbrev pub letter : ℕ → ℕ
letter c = (c + 256 - 97) % 256

-- `children[i] = child`
abbrev pub set_child : (ℕ → Node) → ℕ → Node → ℕ → Node
set_child children i child j = if i == j then child else children j

-- a node that `trie_node_create` made
abbrev pub fresh : Node
fresh = node (λ i. null) false

-- The loop of `trie_insert` from index `i` of the string: the node that it leaves, and whether no
-- allocation failed.
unfoldable pub insert_path : (allocated : ℕ → Bool) → ℕ → Node → List ℕ → Option (Node × Bool)
insert_path allocated i null str = none
insert_path allocated i freed str = none
insert_path allocated i (node children is_leaf) [] = some (node children true, true)
insert_path allocated i (node children is_leaf) (c ∷ str) =
    let ch = letter c in
    let absent = is_null (children ch) in
    let tmp = if absent then fresh else children ch in
    let deeper = insert_path allocated (i + 1) tmp str in
    if not (ltb ch children_no)
    then none
    else if absent && not (allocated i)
    then some (node children is_leaf, false)
    else (deeper >>= λ out. some (node (set_child children ch out.0) is_leaf, out.1))

-- The tree as it then is, and whether the root is returned.
unfoldable pub insert : (allocated : ℕ → Bool) → Node → Option (List ℕ) → Option (Node × Bool)
unfolding insert_path
insert allocated null str = some (null, false)
insert allocated root none = some (root, false)
insert allocated root (some str) = insert_path allocated 0 root str

unfoldable pub search_path : Node → List ℕ → Option Bool
search_path null str = some false
search_path freed str = none
search_path (node children is_leaf) [] = some is_leaf
search_path (node children is_leaf) (c ∷ str) =
    let deeper = search_path (children (letter c)) str in
    if ltb (letter c) children_no then deeper else none

unfoldable pub search : Node → Option (List ℕ) → Option Bool
unfolding search_path
search null str = some false
search root none = some false
search root (some str) = search_path root str

-- Some child but the one at `ch` is not NULL, among those below `n`.
unfoldable pub branches : ℕ → (ℕ → Node) → ℕ → Bool
branches zero children ch = false
branches (suc n) children ch =
    if branches n children ch then true else not (n == ch) && not (is_null (children n))

-- The loop of `trie_longest_prefix` from index `i`; `prefix` is a `uint8_t`.
unfoldable pub prefix_loop : ℕ → ℕ → Node → List ℕ → Option ℤ
unfolding branches
prefix_loop i prefix tmp [] = some (pos prefix)
prefix_loop i prefix null (c ∷ str) = none
prefix_loop i prefix freed (c ∷ str) = none
prefix_loop i prefix (node children is_leaf) (c ∷ str) =
    let ch = letter c in
    let prefix' = if branches children_no children ch then (i + 1) % 256 else prefix in
    let deeper = prefix_loop (i + 1) prefix' (children ch) str in
    if not (ltb ch children_no)
    then none
    else if is_null (children ch)
    then some (negsuc 0)
    else deeper

unfoldable pub longest_prefix : Node → Option (List ℕ) → Option ℤ
unfolding prefix_loop
longest_prefix null str = some (negsuc 0)
longest_prefix root none = some (negsuc 0)
longest_prefix root (some str) = prefix_loop 0 0 root str

-- No pointer in the tree leads to a freed node.
abbrev pub is_whole : Node → Bool
is_whole null = true
is_whole freed = false
is_whole (node children is_leaf) = all_below children_no (λ i. is_whole (children i))

-- The child at `ch` is destroyed, with all that is below it, and the pointer to it is replaced; an
-- assertion wants it to be there.
unfoldable pub cut_child : (ℕ → Node) → Bool → (ch : ℕ) → Node → Option Node
cut_child children is_leaf ch left =
    if ltb ch children_no && not (is_null (children ch)) && is_whole (children ch)
    then some (node (set_child children ch left) is_leaf)
    else none

-- `steps` children down the string, where the pointer to the destroyed child is set to NULL
unfoldable pub cut : ℕ → Node → List ℕ → Option Node
unfolding cut_child
cut steps null str = none
cut steps freed str = none
cut steps (node children is_leaf) [] = none
cut zero (node children is_leaf) (c ∷ str) = cut_child children is_leaf (letter c) null
cut (suc steps) (node children is_leaf) (c ∷ str) =
    let deeper = cut steps (children (letter c)) str in
    if ltb (letter c) children_no
    then (deeper >>= λ child. some (node (set_child children (letter c) child) is_leaf))
    else none

-- The branch for prefix 0: the child for the first character (for the empty string, the
-- terminator) is destroyed, and the pointer to it stays.
unfoldable pub cut_root : Node → List ℕ → Option Node
unfolding cut_child
cut_root null str = none
cut_root freed str = none
cut_root (node children is_leaf) [] = cut_child children is_leaf (letter 0) freed
cut_root (node children is_leaf) (c ∷ str) = cut_child children is_leaf (letter c) freed

unfoldable pub delete_at : Node → List ℕ → ℤ → Option (Node × Bool)
unfolding cut cut_root
delete_at root str (negsuc n) = some (root, false)
delete_at root str (pos zero) = cut_root root str >>= λ root'. some (root', true)
delete_at root str (pos (suc n)) = cut n root str >>= λ root'. some (root', true)

unfoldable pub delete : Node → Option (List ℕ) → Option (Node × Bool)
unfolding longest_prefix delete_at
delete null str = some (null, false)
delete root none = some (root, false)
delete root (some str) = longest_prefix root (some str) >>= λ prefix. delete_at root str prefix
