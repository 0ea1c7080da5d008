-- ===== src/KernelList/Rings.antt =====
-- Rings: what the links say when the nodes of a list hang together.
use data_structures.Prelude.{ℕ, ◌≡◌, ◌≢◌, ◌∙◌, List, [], ◌∷◌, ◌++◌, All}
use data_structures.KernelList.{Links}

-- From `a` the nodes follow each other, in both directions, and then `b` follows.
abbrev pub Linked : Links → ℕ → List ℕ → ℕ → Type 0
Linked m a [] b = (m.next a ≡ b) × (m.prev b ≡ a)
Linked m a (x ∷ xs) b = ((m.next a ≡ x) × (m.prev x ≡ a)) × Linked m x xs b

abbrev pub Distinct : List ℕ → Type 0
Distinct [] = Unit
Distinct (x ∷ xs) = All (λ c. c ≢ x) xs × Distinct xs

-- the list of `head` has these nodes
abbrev pub IsRing : Links → ℕ → List ℕ → Type 0
IsRing m head xs = Linked m head xs head × Distinct (head ∷ xs)

abbrev pub last_of : ℕ → List ℕ → ℕ
last_of a [] = a
last_of a (x ∷ xs) = last_of x xs

abbrev pub first_of : List ℕ → ℕ → ℕ
first_of [] b = b
first_of (x ∷ xs) b = x

pub last_of-All : (P : ℕ → Type 0) (x : ℕ) (xs : List ℕ) → P x → All P xs → P (last_of x xs)
last_of-All P x [] p h = p
last_of-All P x (y ∷ xs) p (q, h) = last_of-All P y xs q h

pub first_of-All : (P : ℕ → Type 0) (xs : List ℕ) (b : ℕ) → All P xs → P b → P (first_of xs b)
first_of-All P [] b h p = p
first_of-All P (x ∷ xs) b (q, h) p = q

-- The nodes keep their links when no link of theirs changes.
pub Linked-frame :
    (m m' : Links) (a : ℕ) (xs : List ℕ) (b : ℕ)
    → m'.next a ≡ m.next a
    → All (λ c. (m'.next c ≡ m.next c) × (m'.prev c ≡ m.prev c)) xs
    → m'.prev b ≡ m.prev b
    → Linked m a xs b
    → Linked m' a xs b
Linked-frame m m' a [] b p h q (n, v) = (p ∙ n, q ∙ v)
Linked-frame m m' a (x ∷ xs) b p ((nx, vx), h) q ((n, v), rest) =
    ((p ∙ n, vx ∙ v), Linked-frame m m' x xs b nx h q rest)

pub Linked-first :
    (m : Links) (a : ℕ) (xs : List ℕ) (b : ℕ) → Linked m a xs b → m.next a ≡ first_of xs b
Linked-first m a [] b (n, v) = n
Linked-first m a (x ∷ xs) b ((n, v), rest) = n

pub Linked-last :
    (m : Links) (a : ℕ) (xs : List ℕ) (b : ℕ) → Linked m a xs b → m.prev b ≡ last_of a xs
Linked-last m a [] b (n, v) = v
Linked-last m a (x ∷ xs) b (h, rest) = Linked-last m x xs b rest

-- the links around a node
pub Linked-next :
    (m : Links) (a : ℕ) (xs : List ℕ) (y : ℕ) (ys : List ℕ) (b : ℕ)
    → Linked m a (xs ++ y ∷ ys) b
    → (m.next y ≡ first_of ys b) × (m.prev y ≡ last_of a xs)
Linked-next m a [] y ys b ((n, v), rest) = (Linked-first m y ys b rest, v)
Linked-next m a (x ∷ xs) y ys b (h, rest) = Linked-next m x xs y ys b rest
