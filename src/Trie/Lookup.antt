-- ===== src/Trie/Lookup.antt =====
-- src/tree/trie.c: the words below a node, for a prefix or a pattern. `word` is the start of the
-- buffer that is in use, and its length the level. `none` is a write outside of the buffer, a freed
-- node, or a failed assertion; `allocated` says for which words an entry can be made.
use data_structures.Prelude.{
  ℕ, zero, suc, ◌+◌, ◌-◌, ◌/◌, ◌%◌, ◌^◌, Bool, true, false, not, ◌&&◌, Option, none, some, List, [],
  ◌∷◌, ◌++◌, if◌then◌else◌, ltb, leb, ◌==◌, ◌>>=◌, ℤ, pos, negsuc, length,
}
use data_structures.Trie.{Node, null, freed, node, letter, is_null, children_no}

abbrev pub max_word_len : ℕ
max_word_len = 128

-- the loop over the children that prints: what the ones below `n` print, one after the other
abbrev pub each_child : ℕ → (ℕ → Option (List (List ℕ))) → Option (List (List ℕ))
each_child zero visit = some []
each_child (suc n) visit = each_child n visit >>= λ out. visit n >>= λ more. some (out ++ more)

-- `word[level] = i + 'a'`, and then the call for the child
abbrev pub extend {ℓ} : {B : Type ℓ} → List ℕ → ℕ → (List ℕ → Option B) → Option B
extend word i call = if ltb (length word) max_word_len then call (word ++ (i + 97) ∷ []) else none

unfoldable pub print_leafs : Node → List ℕ → Option (List (List ℕ))
print_leafs null word = none
print_leafs freed word = none
print_leafs (node children is_leaf) word =
    each_child children_no
      (λ i. if is_null (children i) then some [] else extend word i (print_leafs (children i)))
    >>= λ out. some (if is_leaf then word ∷ out else out)

-- The loop of the prefix functions: the node that the prefix leads to and the buffer, or nothing.
unfoldable pub descend : Node → List ℕ → List ℕ → Option (Option (Node × List ℕ))
descend null str word = some none
descend freed str word = none
descend (node children is_leaf) [] word = some (some (node children is_leaf, word))
descend (node children is_leaf) (c ∷ str) word =
    let deeper = descend (children (letter c)) str (word ++ c ∷ []) in
    if ltb (length word) max_word_len && ltb (letter c) children_no then deeper else none

abbrev pub print_found : Option (Node × List ℕ) → Option (List (List ℕ))
print_found none = some []
print_found (some (tmp, word)) = print_leafs tmp word

-- For NULL as the prefix the node is a variable that was never set: `none`.
unfoldable pub print_leafs_by_prefix : Node → Option (List ℕ) → Option (List (List ℕ))
unfolding print_leafs descend
print_leafs_by_prefix null str = some []
print_leafs_by_prefix root none = none
print_leafs_by_prefix root (some str) = descend root str [] >>= λ found. print_found found

-- The loop over the children that fills the list, which stops when a call fails.
abbrev pub each_child_get :
    ℕ
    → (ℕ → List (List ℕ) → Option (List (List ℕ) × Bool))
    → List (List ℕ)
    → Option (List (List ℕ) × Bool)
each_child_get zero visit list = some (list, true)
each_child_get (suc n) visit list =
    each_child_get n visit list >>= λ out. if out.1 then visit n out.0 else some out

-- the list, and whether no entry failed
unfoldable pub get_leafs :
    (allocated : List ℕ → Bool) → Node → List ℕ → List (List ℕ) → Option (List (List ℕ) × Bool)
get_leafs allocated null word list = none
get_leafs allocated freed word list = none
get_leafs allocated (node children is_leaf) word list =
    let list' = if is_leaf then list ++ word ∷ [] else list in
    let rest =
      each_child_get children_no
        (λ i list.
          if is_null (children i)
          then some (list, true)
          else extend word i (λ word'. get_leafs allocated (children i) word' list))
        list' in
    if is_leaf
    then (if ltb (length word) max_word_len
        then (if allocated word then rest else some (list, false))
        else none)
    else rest

-- what the caller's list is after the call
pub data Words : Type 0 where
  listed : List (List ℕ) → Words
  untouched : Words

-- When an entry failed, `kslist_for_each_safe` destroys the list, and at its end, where the node is
-- NULL, reads `pos->next` once more.
abbrev pub outcome : List (List ℕ) × Bool → Option (Words × ℤ)
outcome (list, true) = some (listed list, pos 0)
outcome (list, false) = none

abbrev pub get_found :
    (allocated : List ℕ → Bool) → List (List ℕ) → Option (Node × List ℕ) → Option (Words × ℤ)
get_found allocated list none = some (untouched, negsuc 0)
get_found allocated list (some (tmp, word)) =
    get_leafs allocated tmp word list >>= λ out. outcome out

unfoldable pub get_leafs_by_prefix :
    (allocated : List ℕ → Bool) → Node → Option (List ℕ) → List (List ℕ) → Option (Words × ℤ)
unfolding get_leafs descend
get_leafs_by_prefix allocated null str list = some (untouched, negsuc 0)
get_leafs_by_prefix allocated root none list = none
get_leafs_by_prefix allocated root (some str) list =
    descend root str [] >>= λ found. get_found allocated list found

-- `regex_opt_t`, with any other value that the `enum` may hold
pub data RegexOpt : Type 0 where
  val_in_list : RegexOpt
  val_not_in_list : RegexOpt
  other_value : RegexOpt

pub record LetterRegex : Type 0 where
  pub opt : RegexOpt
  pub mask : ℕ

-- mask & (1 << i)
abbrev pub has_bit : ℕ → ℕ → Bool
has_bit mask i = (mask / 2 ^ i) % 2 == 1

-- The `switch` for the child at `i`: whether it is visited; the last case is `assert(0)`.
abbrev pub admits : RegexOpt → Bool → Option Bool
admits val_in_list bit = some bit
admits val_not_in_list bit = some (not bit)
admits other_value bit = none

-- `regex` is the rest of `word_list` from the level on.
unfoldable pub print_regex : Node → List LetterRegex → List ℕ → Option (List (List ℕ))
print_regex null regex word = none
print_regex freed regex word = none
print_regex (node children is_leaf) [] word = some (if is_leaf then word ∷ [] else [])
print_regex (node children is_leaf) (r ∷ regex) word = each_child children_no (λ i.
    if is_null (children i)
    then some []
    else (admits r.opt (has_bit r.mask i) >>= λ ok.
        if ok then extend word i (print_regex (children i) regex) else some []))

unfoldable pub print_leafs_by_regex : Node → List LetterRegex → Option (List (List ℕ))
unfolding print_regex
print_leafs_by_regex null regex = some []
print_leafs_by_regex root [] = some []
print_leafs_by_regex root (r ∷ regex) = print_regex root (r ∷ regex) []

-- As `print_regex`, with an entry for each word; whether no entry failed.
unfoldable pub get_regex :
    (allocated : List ℕ → Bool)
    → Node
    → List LetterRegex
    → List ℕ
    → List (List ℕ)
    → Option (List (List ℕ) × Bool)
get_regex allocated null regex word list = none
get_regex allocated freed regex word list = none
get_regex allocated (node children is_leaf) [] word list =
    if is_leaf
    then (if ltb (length word) max_word_len
        then some (if allocated word then (list ++ word ∷ [], true) else (list, false))
        else none)
    else some (list, true)
get_regex allocated (node children is_leaf) (r ∷ regex) word list =
    each_child_get children_no
      (λ i list.
        if is_null (children i)
        then some (list, true)
        else (admits r.opt (has_bit r.mask i) >>= λ ok.
            if ok
            then extend word i (λ word'. get_regex allocated (children i) regex word' list)
            else some (list, true)))
      list

unfoldable pub get_leafs_by_regex :
    (allocated : List ℕ → Bool) → Node → List LetterRegex → List (List ℕ) → Option (Words × ℤ)
unfolding get_regex
get_leafs_by_regex allocated null regex list = some (untouched, negsuc 0)
get_leafs_by_regex allocated root [] list = some (untouched, negsuc 0)
get_leafs_by_regex allocated root (r ∷ regex) list =
    get_regex allocated root (r ∷ regex) [] list >>= λ out. outcome out

-- `1 << i` is or-ed into the mask
abbrev set_bit : ℕ → ℕ → ℕ
set_bit mask i = if has_bit mask i then mask else mask + 2 ^ i

-- The loop of `trie_letter_list_to_mask`; a letter before 'a' or 32 or more after it is a shift
-- that C leaves undefined: `none`.
unfoldable pub mask_loop : ℕ → List ℕ → Option ℕ
mask_loop mask [] = some mask
mask_loop mask (c ∷ str) =
    let rest = mask_loop (set_bit mask (c - 97)) str in
    if leb 97 c && ltb (c - 97) 32 then rest else none

unfoldable pub letter_list_to_mask : Option (List ℕ) → Option ℕ
unfolding mask_loop
letter_list_to_mask none = some 0
letter_list_to_mask (some str) = mask_loop 0 str
