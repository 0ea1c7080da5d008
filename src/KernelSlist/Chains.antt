-- ===== src/KernelSlist/Chains.antt =====
-- Chains: what the links say when the nodes of a list hang together, and how a change at one node
-- leaves the others.
use data_structures.Prelude.{
  ℕ, ◌≡◌, ◌≢◌, refl, sym, ◌∙◌, arith, Option, none, some, List, [], ◌∷◌, ◌++◌, All, All-append,
  All-append_left, All-append_right, ◌==◌, true, false,
}
use data_structures.KernelList.Rings.{Distinct, last_of, last_of-All}
use data_structures.KernelList.Splice.{Distinct-insert}
use data_structures.KernelList.Unlink.{All-drop, Distinct-drop}
use data_structures.KernelSlist.{Links, set_next}

-- The nodes follow each other behind `a`, and then NULL.
abbrev pub Chain : Links → ℕ → List ℕ → Type 0
Chain next a [] = next a ≡ none
Chain next a (x ∷ xs) = (next a ≡ some x) × Chain next x xs

-- the list of `head` has these nodes
abbrev pub IsChain : Links → ℕ → List ℕ → Type 0
IsChain next head xs = Chain next head xs × Distinct (head ∷ xs)

pub set_same : (next : Links) (a : ℕ) (v : Option ℕ) → set_next next a v a ≡ v
set_same next a v = let self : (a == a) ≡ true = ground arith in rw self refl

pub set_other : (next : Links) (a : ℕ) (v : Option ℕ) (c : ℕ) → c ≢ a → set_next next a v c ≡ next c
set_other next a v c p = let other : (c == a) ≡ false = ground arith in rw other refl

-- A list that follows another node, when the links of its own nodes are the same.
pub Chain-from :
    (next next' : Links) (a b : ℕ) (xs : List ℕ)
    → next' b ≡ next a
    → All (λ c. next' c ≡ next c) xs
    → Chain next a xs
    → Chain next' b xs
Chain-from next next' a b [] p h e = p ∙ e
Chain-from next next' a b (x ∷ xs) p (q, h) (e, rest) =
    (p ∙ e, Chain-from next next' x x xs q h rest)

-- A change at the last of some nodes replaces what follows them.
pub Chain-splice :
    (next next' : Links) (node s : ℕ) (xs ys zs : List ℕ)
    → Distinct (s ∷ xs)
    → All (λ c. c ≢ node) (s ∷ xs)
    → ((c : ℕ) → c ≢ last_of s xs → c ≢ node → next' c ≡ next c)
    → Chain next s (xs ++ ys)
    → Chain next' (last_of s xs) zs
    → Chain next' s (xs ++ zs)
Chain-splice next next' node s [] ys zs d n same h k = k
Chain-splice next next' node s (x ∷ xs) ys zs (ds, d) (ns, n) same (e, rest) k =
    let last = last_of-All (λ c. c ≢ s) x xs ds.0 ds.1 in
    (same s (λ eq. last (sym eq)) ns ∙ e, Chain-splice next next' node x xs ys zs d n same rest k)

-- the part behind some nodes
pub Chain-drop :
    (next : Links) (s : ℕ) (xs ys : List ℕ) → Chain next s (xs ++ ys) → Chain next (last_of s xs) ys
Chain-drop next s [] ys h = h
Chain-drop next s (x ∷ xs) ys (e, h) = Chain-drop next x xs ys h

pub Distinct-left : (xs ys : List ℕ) → Distinct (xs ++ ys) → Distinct xs
Distinct-left [] ys d = tt
Distinct-left (x ∷ xs) ys (dx, d) = (All-append_left (λ c. c ≢ x) xs ys dx, Distinct-left xs ys d)

pub Distinct-behind :
    (s : ℕ) (xs ys : List ℕ) → Distinct (s ∷ xs ++ ys) → All (λ c. c ≢ last_of s xs) ys
Distinct-behind s [] ys d = d.0
Distinct-behind s (x ∷ xs) ys d = Distinct-behind x xs ys d.1

Same-All :
    (next next' : Links) (a node : ℕ) (ys : List ℕ)
    → ((c : ℕ) → c ≢ a → c ≢ node → next' c ≡ next c)
    → All (λ c. c ≢ a) ys
    → All (λ c. c ≢ node) ys
    → All (λ c. next' c ≡ next c) ys
Same-All next next' a node [] same p q = tt
Same-All next next' a node (y ∷ ys) same (p, ps) (q, qs) =
    (same y p q, Same-All next next' a node ys same ps qs)

-- A node that is not in the chain is linked behind the nodes `xs` of it.
pub insert-IsChain :
    (next next' : Links) (head : ℕ) (xs ys : List ℕ) (node : ℕ)
    → IsChain next head (xs ++ ys)
    → All (λ c. c ≢ node) (head ∷ xs ++ ys)
    → next' (last_of head xs) ≡ some node
    → next' node ≡ next (last_of head xs)
    → ((c : ℕ) → c ≢ last_of head xs → c ≢ node → next' c ≡ next c)
    → IsChain next' head (xs ++ node ∷ ys)
insert-IsChain next next' head xs ys node (h, (dh, d)) (hn, n) p q same =
    let left = All-append_left (λ c. c ≢ node) xs ys n in
    let away = Distinct-behind head xs ys (dh, d) in
    let ys_same =
      Same-All next next' (last_of head xs) node ys same away
        (All-append_right (λ c. c ≢ node) xs ys n) in
    let behind =
      Chain-from next next' (last_of head xs) node ys q ys_same (Chain-drop next head xs ys h) in
    let dl = Distinct-left (head ∷ xs) ys (dh, d) in
    let left_dh = All-append_left (λ c. c ≢ head) xs ys dh in
    (
      Chain-splice next next' node head xs ys (node ∷ ys) dl (hn, left) same h (p, behind),
      (
        All-append (λ c. c ≢ head) xs (node ∷ ys) left_dh
            ((λ eq. hn (sym eq)), All-append_right (λ c. c ≢ head) xs ys dh),
        Distinct-insert xs node ys d n,
      ),
    )

-- A node is taken out from behind the nodes `xs`.
pub remove-IsChain :
    (next : Links) (head : ℕ) (xs : List ℕ) (node : ℕ) (ys : List ℕ)
    → IsChain next head (xs ++ node ∷ ys)
    → IsChain (set_next next (last_of head xs) (next node)) head (xs ++ ys)
remove-IsChain next head xs node ys (h, (dh, d)) =
    let a = last_of head xs in
    let next' = set_next next a (next node) in
    let same : (c : ℕ) → c ≢ a → next' c ≡ next c = λ c p. set_other next a (next node) c p in
    let away = Distinct-behind head xs (node ∷ ys) (dh, d) in
    let rest = Chain-drop next head xs (node ∷ ys) h in
    let behind =
      Chain-from next next' node a ys (set_same next a (next node))
        (Same-All next next' a a ys (λ c p q. same c p) away.1 away.1) rest.1 in
    let dl = Distinct-left (head ∷ xs) (node ∷ ys) (dh, d) in
    (
      unlink next next' head xs (node ∷ ys) ys dl same h behind,
      (All-drop (λ c. c ≢ head) xs node ys dh, Distinct-drop xs node ys d),
    )
  where
    unlink :
        (next next' : Links) (s : ℕ) (xs ys zs : List ℕ)
        → Distinct (s ∷ xs)
        → ((c : ℕ) → c ≢ last_of s xs → next' c ≡ next c)
        → Chain next s (xs ++ ys)
        → Chain next' (last_of s xs) zs
        → Chain next' s (xs ++ zs)
    unlink next next' s [] ys zs d same h k = k
    unlink next next' s (x ∷ xs) ys zs (ds, d) same (e, rest) k =
        let last = last_of-All (λ c. c ≢ s) x xs ds.0 ds.1 in
        (same s (λ eq. last (sym eq)) ∙ e, unlink next next' x xs ys zs d same rest k)
