-- ===== src/Trie/Tests.antt =====
-- Runs on small trees, and the theorems at concrete trees.
use data_structures.Prelude.{
  ℕ, ◌≡◌, refl, arith, Bool, true, false, none, some, List, [], ◌∷◌, if◌then◌else◌, ◌==◌, ◌⊎◌, pos,
  negsuc,
}
use data_structures.Trie.{Node, null, node, insert, search, longest_prefix, delete, is_whole}
use data_structures.Trie.Words.{IsWord, same}
use data_structures.Trie.Insert.{insert_correct, insert_refused}
use data_structures.Trie.Prefix.{leads, IsLast, longest_prefix_correct}
use data_structures.Trie.Delete.{begins, delete_correct, delete-only}
use data_structures.Trie.Lookup.{
  print_leafs_by_prefix, print_leafs_by_regex, get_leafs_by_prefix, listed, LetterRegex,
  val_in_list, val_not_in_list, letter_list_to_mask,
}
use data_structures.Trie.Leafs.{fits, Lists, once}
use data_structures.Trie.Lookups.{matching, print_leafs_by_prefix_correct}
use data_structures.Trie.Fill.{NotFound, Found, get_leafs_by_prefix_correct}
use data_structures.Trie.Regex.{matches, print_leafs_by_regex_correct}

abbrev end : Node
end = node (λ i. null) true

-- the words "a", "b" and "ba"
abbrev sample : Node
sample =
    node
      (λ i.
        if i == 0
        then end
        else if i == 1
        then node (λ j. if j == 0 then end else null) true
        else null)
      false

-- the word "ba" alone
abbrev single : Node
single = node (λ i. if i == 1 then node (λ j. if j == 0 then end else null) false else null) false

abbrev a : List ℕ
a = 97 ∷ []

abbrev ba : List ℕ
ba = 98 ∷ 97 ∷ []

abbrev always : ℕ → Bool
always i = true

abbrev never : ℕ → Bool
never i = false

ba-IsWord : IsWord ba
ba-IsWord = ((omega arith, omega arith), ((omega arith, omega arith), tt))

search-single : search single (some ba) ≡ some true
unfolding search
search-single = refl

prefix-single : longest_prefix single (some ba) ≡ some (pos 0)
unfolding longest_prefix
prefix-single = refl

print-sample : print_leafs_by_prefix sample (some []) ≡ some (a ∷ (98 ∷ []) ∷ ba ∷ [])
unfolding print_leafs_by_prefix
print-sample = refl

get-sample :
    get_leafs_by_prefix (λ w. true) sample (some (98 ∷ [])) []
    ≡ some (listed ((98 ∷ []) ∷ ba ∷ []), pos 0)
unfolding get_leafs_by_prefix
get-sample = refl

-- When an entry cannot be made, the loop that destroys the list reads through NULL.
get-no_memory : get_leafs_by_prefix (λ w. false) sample (some (98 ∷ [])) [] ≡ none
unfolding get_leafs_by_prefix
get-no_memory = refl

mask-ba : letter_list_to_mask (some ba) ≡ some 3
unfolding letter_list_to_mask
mask-ba = refl

abbrev pattern_b : LetterRegex
pattern_b = record { opt = val_in_list; mask = 2 }

abbrev pattern_any : LetterRegex
pattern_any = record { opt = val_not_in_list; mask = 0 }

regex-sample : print_leafs_by_regex sample (pattern_b ∷ pattern_any ∷ []) ≡ some (ba ∷ [])
unfolding print_leafs_by_regex
regex-sample = refl

refused : insert never end (some ba) ≡ some (end, false)
unfolding insert
refused = refl

sample-fits : fits 128 sample ≡ true
unfolding fits
sample-fits = refl

sample-fits127 : fits 127 sample ≡ true
unfolding fits
sample-fits127 = refl

insert_correct_example :
    (root' : Node) × (insert always sample (some ba) ≡ some (root', true))
    × (is_whole root' ≡ true)
    × ((word : List ℕ)
        → IsWord word
        → search root' (some word)
          ≡ (if same word ba then some true else search sample (some word)))
insert_correct_example = insert_correct always sample ba (λ i. refl) refl refl ba-IsWord

insert_refused_example :
    (is_whole end ≡ true)
    × ((word : List ℕ) → IsWord word → search end (some word) ≡ search end (some word))
insert_refused_example = insert_refused never end end ba refl refl ba-IsWord refused

longest_prefix_correct_example :
    ((leads sample ba ≡ false) × (longest_prefix sample (some ba) ≡ some (negsuc 0)))
    ⊎ ((leads sample ba ≡ true)
        × ((m : ℕ) × (longest_prefix sample (some ba) ≡ some (pos m)) × IsLast m sample ba))
longest_prefix_correct_example = longest_prefix_correct sample ba refl refl ba-IsWord (omega arith)

prefix-sample : longest_prefix sample (some ba) ≡ some (pos 1)
unfolding longest_prefix
prefix-sample = refl

delete_correct_example :
    (root' : Node) × (delete sample (some ba) ≡ some (root', true))
    × (is_whole root' ≡ true)
    × ((word : List ℕ)
        → IsWord word
        → search root' (some word)
          ≡ (if begins 1 ba word then some false else search sample (some word)))
delete_correct_example = delete_correct sample ba refl refl ba-IsWord (omega arith) 0 prefix-sample

delete-only_example :
    (root' : Node) × (delete single (some ba) ≡ some (root', true))
    × (search root' (some ba) ≡ none)
    × ((allocated : ℕ → Bool) → insert allocated root' (some ba) ≡ none)
    × (delete root' (some ba) ≡ none)
delete-only_example =
    delete-only (λ i. if i == 1 then node (λ j. if j == 0 then end else null) false else null) false
      98 a a refl ba-IsWord (omega arith) prefix-single

print_leafs_by_prefix_correct_example :
    Lists (print_leafs_by_prefix sample (some ba)) (matching sample ba)
print_leafs_by_prefix_correct_example =
    print_leafs_by_prefix_correct sample ba refl sample-fits ba-IsWord (omega arith)

get_leafs_by_prefix_correct_example :
    NotFound (λ w. true) sample ba [] ⊎ Found (λ w. true) sample ba []
get_leafs_by_prefix_correct_example =
    get_leafs_by_prefix_correct (λ w. true) sample ba [] refl sample-fits127 ba-IsWord (omega arith)

print_leafs_by_regex_correct_example :
    Lists
      (print_leafs_by_regex sample (pattern_b ∷ pattern_any ∷ []))
      (λ v. if matches (pattern_b ∷ pattern_any ∷ []) v then once (search sample (some v)) else 0)
print_leafs_by_regex_correct_example =
    print_leafs_by_regex_correct sample pattern_b (pattern_any ∷ []) refl refl (refl, (refl, tt))
      (omega arith)
