-- ===== src/Trie/Regex.antt =====
-- `trie_print_leafs_by_regex` in src/tree/trie.c: the words that match a pattern.
use data_structures.Prelude.{
  ℕ, ◌+◌, ◌≤◌, ◌<◌, ◌≡◌, refl, arith, sym, ◌∙◌, Bool, true, false, not, ◌&&◌, Option, All, none,
  some, List, [], ◌∷◌, ◌++◌, if◌then◌else◌, ltb, ◌==◌, inl, inr, Bool-cases, length, length-append,
  ◌>>=◌, all_below-get,
}
use data_structures.Trie.{
  Node, null, freed, node, letter, is_null, is_whole, children_no, search_path, search,
}
use data_structures.Trie.Words.{IsWord, search_path-cons}
use data_structures.Trie.Lookup.{
  max_word_len, extend, RegexOpt, val_in_list, val_not_in_list, other_value, LetterRegex, has_bit,
  admits, print_regex, print_leafs_by_regex,
}
use data_structures.Trie.Listing.{
  one_if, strip, at_rest, sum_below, sum_below-zero, strip-append, strip-IsWord, one_child,
}
use data_structures.Trie.Leafs.{Lists, once, is_exact, leaf_words, each_child-Lists}

-- One of the two options is chosen.
abbrev pub is_option : RegexOpt → Bool
is_option val_in_list = true
is_option val_not_in_list = true
is_option other_value = false

abbrev allowed : RegexOpt → Bool → Bool
allowed val_in_list bit = bit
allowed val_not_in_list bit = not bit
allowed other_value bit = false

abbrev pub allows : LetterRegex → ℕ → Bool
allows r i = allowed r.opt (has_bit r.mask i)

-- The word has the length of the pattern, and each letter is allowed where it stands.
abbrev pub matches : List LetterRegex → List ℕ → Bool
matches [] [] = true
matches [] (d ∷ word) = false
matches (r ∷ regex) [] = false
matches (r ∷ regex) (d ∷ word) = if allows r (letter d) then matches regex word else false

admits-allowed :
    (opt : RegexOpt) (bit : Bool) → is_option opt ≡ true → admits opt bit ≡ some (allowed opt bit)
admits-allowed val_in_list bit h = refl
admits-allowed val_not_in_list bit h = refl
admits-allowed other_value bit h = cc h

-- 1 for a word of the tree that matches
abbrev pub hit : Node → List LetterRegex → List ℕ → ℕ
hit tmp regex word = if matches regex word then once (search_path tmp word) else 0

abbrev hit_child : Bool → Node → List LetterRegex → List ℕ → ℕ
hit_child ok child regex word = if ok then hit child regex word else 0

no_rest :
    (f : List ℕ → ℕ) (c : ℕ) (rest : Option (List ℕ))
    → ((u : List ℕ) → f u ≡ 0)
    → at_rest (λ u. at_rest f (strip (c ∷ []) u)) rest ≡ 0
no_rest f c none h = refl
no_rest f c (some []) h = refl
no_rest f c (some (d ∷ u)) h = elim (Bool-cases (d == c)) [
  | inl equal ↦ rw equal (h u)
  | inr other ↦ rw other refl
]

no_hit :
    (child : Node) (regex : List LetterRegex) (u : List ℕ)
    → is_null child ≡ true
    → hit child regex u ≡ 0
unfolding search_path
no_hit null regex u h = elim (Bool-cases (matches regex u)) [
  | inl e ↦ rw e refl
  | inr e ↦ rw e refl
]
no_hit freed regex u h = cc h
no_hit (node children is_leaf) regex u h = cc h

child-Lists :
    (child : Node) (r : LetterRegex) (regex : List LetterRegex) (i : ℕ) (word : List ℕ)
    → is_option r.opt ≡ true
    → ltb (length word) max_word_len ≡ true
    → (is_null child ≡ false
        → Lists
            (print_regex child regex (word ++ (i + 97) ∷ []))
            (λ v. at_rest (hit child regex) (strip (word ++ (i + 97) ∷ []) v)))
    → Lists
        (if is_null child
          then some []
          else (admits r.opt (has_bit r.mask i) >>= λ ok.
              if ok then extend word i (print_regex child regex) else some []))
        (λ v.
          at_rest
            (λ rest. at_rest (hit_child (allows r i) child regex) (strip ((i + 97) ∷ []) rest))
            (strip word v))
child-Lists child r regex i word opt room h = elim (Bool-cases (is_null child)) [
  | inl absent ↦ record {
    out = [];
    runs = rw absent refl;
    counts = λ v low. sym (
        no_rest (hit_child (allows r i) child regex) (i + 97) (strip word v) (λ u.
          elim (Bool-cases (allows r i)) [
            | inl e ↦ rw e (no_hit child regex u absent)
            | inr e ↦ rw e refl
          ]));
  }
  | inr there ↦ elim (Bool-cases (allows r i)) [
    | inl ok ↦
        let lists = h there in
        record {
          out = lists.out;
          runs = rw (there, admits-allowed r.opt (has_bit r.mask i) opt) (rw (ok, room) lists.runs);
          counts =
              λ v low. rw ok (lists.counts v low ∙ strip-append word (i + 97) v (hit child regex));
        }
    | inr skip ↦ record {
      out = [];
      runs = rw (there, admits-allowed r.opt (has_bit r.mask i) opt) (rw skip refl);
      counts = λ v low. rw skip (sym (no_rest (λ u. 0) (i + 97) (strip word v) (λ u. refl)));
    }
  ]
]

end_words :
    (children : ℕ → Node) (is_leaf : Bool) (rest : Option (List ℕ))
    → one_if (is_leaf && is_exact rest) + 0 ≡ at_rest (hit (node children is_leaf) []) rest
unfolding search_path
end_words children true none = refl
end_words children false none = refl
end_words children true (some []) = refl
end_words children false (some []) = refl
end_words children true (some (d ∷ u)) = refl
end_words children false (some (d ∷ u)) = refl

node_words :
    (children : ℕ → Node) (is_leaf : Bool) (r : LetterRegex) (regex : List LetterRegex)
    (rest : Option (List ℕ))
    → ((u : List ℕ) → rest ≡ some u → IsWord u)
    → sum_below children_no (λ i.
      at_rest
        (λ u. at_rest (hit_child (allows r i) (children i) regex) (strip ((i + 97) ∷ []) u))
        rest)
      ≡ at_rest (hit (node children is_leaf) (r ∷ regex)) rest
node_words children is_leaf r regex none low = sum_below-zero children_no (λ i. 0) (λ i q. refl)
node_words children is_leaf r regex (some []) low =
    sum_below-zero children_no (λ i. 0) (λ i q. refl)
node_words children is_leaf r regex (some (d ∷ u)) low =
    let h : IsWord (d ∷ u) = low (d ∷ u) refl in
    one_child (λ i u. hit_child (allows r i) (children i) regex u) (d ∷ u) h
    ∙ elim (Bool-cases (allows r (letter d))) [
      | inl ok ↦ rw (ok, search_path-cons children is_leaf d u h.0) refl
      | inr skip ↦ rw skip refl
    ]

print_regex-Lists :
    (tmp : Node) (regex : List LetterRegex) (word : List ℕ)
    → is_null tmp ≡ false
    → is_whole tmp ≡ true
    → All (λ r. is_option r.opt ≡ true) regex
    → length word + length regex ≤ max_word_len
    → Lists (print_regex tmp regex word) (λ v. at_rest (hit tmp regex) (strip word v))
unfolding print_regex
print_regex-Lists null regex word there h opts q = cc there
print_regex-Lists freed regex word there h opts q = cc h
print_regex-Lists (node children is_leaf) [] word there h opts q = record {
  out = if is_leaf then word ∷ [] else [];
  runs = refl;
  counts = λ v low. leaf_words is_leaf word v [] ∙ end_words children is_leaf (strip word v);
}
print_regex-Lists (node children is_leaf) (r ∷ regex) word there h (opt, opts) q =
    let room : ltb (length word) max_word_len ≡ true = ground arith in
    let visit : (i : ℕ)
        → i < children_no
        → is_null (children i) ≡ false
        → Lists (print_regex (children i) regex (word ++ (i + 97) ∷ []))
            (λ v. at_rest (hit (children i) regex) (strip (word ++ (i + 97) ∷ []) v)) =
      λ i k there'.
        (let longer = length-append word ((i + 97) ∷ []) in
          print_regex-Lists (children i) regex (word ++ (i + 97) ∷ []) there'
            (all_below-get children_no (λ i. is_whole (children i)) i h k) opts (omega arith)) in
    let lists =
      each_child-Lists children_no
        (λ i.
          if is_null (children i)
          then some []
          else (admits r.opt (has_bit r.mask i) >>= λ ok.
              if ok then extend word i (print_regex (children i) regex) else some []))
        (λ i v.
          at_rest
            (λ rest.
              at_rest (hit_child (allows r i) (children i) regex) (strip ((i + 97) ∷ []) rest))
            (strip word v))
        (λ i k. child-Lists (children i) r regex i word opt room (λ there'. visit i k there')) in
    record {
      out = lists.out;
      runs = lists.runs;
      counts = λ v low.
          lists.counts v low
          ∙ node_words children is_leaf r regex (strip word v) (λ u e. strip-IsWord word v u low e);
    }

-- On a tree without freed nodes, for a pattern of 1 to 128 letters with valid options,
-- trie_print_leafs_by_regex prints the words of the tree that match the pattern, each once, and
-- no other words over the lower-case letters.
pub print_leafs_by_regex_correct :
    (root : Node) (r : LetterRegex) (regex : List LetterRegex)
    → is_null root ≡ false
    → is_whole root ≡ true
    → All (λ r. is_option r.opt ≡ true) (r ∷ regex)
    → length (r ∷ regex) ≤ max_word_len
    → Lists
        (print_leafs_by_regex root (r ∷ regex))
        (λ v. if matches (r ∷ regex) v then once (search root (some v)) else 0)
unfolding print_leafs_by_regex search
print_leafs_by_regex_correct null r regex there h opts q = cc there
print_leafs_by_regex_correct freed r regex there h opts q = cc h
print_leafs_by_regex_correct (node children is_leaf) r regex there h opts q =
    print_regex-Lists (node children is_leaf) (r ∷ regex) [] there h opts (omega arith)
