-- ===== src/AvlTree/Balanced.antt =====
-- The balance condition, and what `__avl_tree_balance` restores.
use Prim.Native.Nat.{max}
use native.Mathlib.Decide.{dec_lt}
use data_structures.Prelude.{
  ℕ, ◌+◌, ◌≤◌, ◌<◌, ◌≡◌, ◌⊎◌, refl, arith, true, false, some, ◌∷◌, ◌++◌, append_assoc, ltb, sub_ℕ,
  Bool-cases, inl, inr,
}
use data_structures.AvlTree.Nodes.{
  Tree, leaf, node, height, balance, larger, below_minus_one, above_one, below_zero, above_zero,
}
use data_structures.AvlTree.Spec.{in_order}

below_minus_one-sub : (a b : ℕ) → below_minus_one (sub_ℕ a b) ≡ ltb (a + 1) b
below_minus_one-sub a b = ground arith

above_one-sub : (a b : ℕ) → above_one (sub_ℕ a b) ≡ ltb (b + 1) a
above_one-sub a b = ground arith

above_zero-sub : (a b : ℕ) → above_zero (sub_ℕ a b) ≡ ltb b a
above_zero-sub a b = ground arith

below_zero-sub : (a b : ℕ) → below_zero (sub_ℕ a b) ≡ ltb a b
below_zero-sub a b = ground arith

larger-max : (a b : ℕ) → larger a b ≡ max a b
larger-max a b = ground arith

module _ {ℓ} {A : Type ℓ} where
  -- Every height is stored right, and the subtrees of every node differ by one level at most.
  abbrev pub IsBalanced : Tree A → Type 0
  IsBalanced leaf = Unit
  IsBalanced (node left x right h) =
      IsBalanced left
      × IsBalanced right
      × (h ≡ 1 + max (height left) (height right))
      × (height left ≤ height right + 1)
      × (height right ≤ height left + 1)

  -- `t` holds `left`, `x` and `right`, in this order, in balance.
  pub record Balances (left : Tree A) (x : A) (right : Tree A) (t : Tree A) : Type ℓ where
    pub order : in_order t ≡ in_order left ++ x ∷ in_order right
    pub balanced : IsBalanced t
    pub least : max (height left) (height right) ≤ height t
    pub most : height t ≤ 1 + max (height left) (height right)
    pub level :
        height left ≤ height right + 1
        → height right ≤ height left + 1
        → height t ≡ 1 + max (height left) (height right)

  balance-even :
      (left : Tree A) (x : A) (right : Tree A) (h : ℕ)
      → IsBalanced left
      → IsBalanced right
      → height left ≤ height right + 1
      → height right ≤ height left + 1
      → (t : Tree A) × (balance (node left x right h) ≡ some t) × Balances left x right t
  unfolding balance
  balance-even left x right h bl br p q =
      let a = height left in
      let b = height right in
      let low : ltb (a + 1) b ≡ false = ground arith in
      let high : ltb (b + 1) a ≡ false = ground arith in
      rw (below_minus_one-sub a b, low, above_one-sub a b, high)
        (
          node left x right (1 + larger a b),
          refl,
          record {
            order = refl;
            balanced = (bl, br, omega (arith, larger-max a b), p, q);
            least = omega (arith, larger-max a b);
            most = omega (arith, larger-max a b);
            level = λ f g. omega (arith, larger-max a b);
          },
        )

  -- The right subtree is two levels higher, and leans to the right or not at all.
  balance-right_right :
      (left : Tree A) (x : A) (rl : Tree A) (y : A) (rr : Tree A) (k h : ℕ)
      → IsBalanced left
      → IsBalanced (node rl y rr k)
      → k ≡ height left + 2
      → ltb (height rr) (height rl) ≡ false
      → (t : Tree A) × (balance (node left x (node rl y rr k) h) ≡ some t)
        × Balances left x (node rl y rr k) t
  unfolding balance
  balance-right_right left x rl y rr k h bl (brl, brr, br, p, q) e f =
      let a = height left in
      let b = height rl in
      let c = height rr in
      let low : ltb (a + 1) k ≡ true = ground arith in
      let lean : b ≤ c = ground arith in
      let inner : ℕ = 1 + larger a b in
      let deep : larger a b ≡ max a b = larger-max _ _ in
      let top : larger inner c ≡ max inner c = larger-max _ _ in
      let t : Tree A = node (node left x rl inner) y rr (1 + larger inner c) in
      let balanced : IsBalanced t = (
        (bl, brl, omega arith, omega arith, omega arith),
        brr,
        omega arith,
        omega arith,
        omega arith,
      ) in
      rw (below_minus_one-sub a k, low, above_zero-sub b c, f)
        (
          t,
          refl,
          record {
            order = simp append_assoc;
            balanced = balanced;
            least = omega arith;
            most = omega arith;
            level = λ even odd. absurd (omega arith);
          },
        )

  -- The right subtree is two levels higher, and leans to the left.
  balance-right_left :
      (left : Tree A) (x : A) (rll : Tree A) (z : A) (rlr : Tree A) (m : ℕ) (y : A) (rr : Tree A)
      (k h : ℕ)
      → IsBalanced left
      → IsBalanced (node (node rll z rlr m) y rr k)
      → k ≡ height left + 2
      → ltb (height rr) m ≡ true
      → (t : Tree A) × (balance (node left x (node (node rll z rlr m) y rr k) h) ≡ some t)
        × Balances left x (node (node rll z rlr m) y rr k) t
  unfolding balance
  balance-right_left left x rll z rlr m y rr k h bl ((bll, blr, bm, u, v), brr, br, p, q) e f =
      let a = height left in
      let b = height rll in
      let b' = height rlr in
      let c = height rr in
      let low : ltb (a + 1) k ≡ true = ground arith in
      let lean : c < m = ground arith in
      let inner : ℕ = 1 + larger a b in
      let outer : ℕ = 1 + larger b' c in
      let deep : larger a b ≡ max a b = larger-max _ _ in
      let wide : larger b' c ≡ max b' c = larger-max _ _ in
      let top : larger inner outer ≡ max inner outer = larger-max _ _ in
      let t : Tree A =
        node (node left x rll inner) z (node rlr y rr outer) (1 + larger inner outer) in
      let balanced : IsBalanced t = (
        (bl, bll, omega arith, omega arith, omega arith),
        (blr, brr, omega arith, omega arith, omega arith),
        omega arith,
        omega arith,
        omega arith,
      ) in
      rw (below_minus_one-sub a k, low, above_zero-sub m c, f)
        (
          t,
          refl,
          record {
            order = simp append_assoc;
            balanced = balanced;
            least = omega arith;
            most = omega arith;
            level = λ even odd. absurd (omega arith);
          },
        )

  -- The left subtree is two levels higher, and leans to the left or not at all.
  balance-left_left :
      (ll : Tree A) (y : A) (lr : Tree A) (k : ℕ) (x : A) (right : Tree A) (h : ℕ)
      → IsBalanced (node ll y lr k)
      → IsBalanced right
      → k ≡ height right + 2
      → ltb (height ll) (height lr) ≡ false
      → (t : Tree A) × (balance (node (node ll y lr k) x right h) ≡ some t)
        × Balances (node ll y lr k) x right t
  unfolding balance
  balance-left_left ll y lr k x right h (bll, blr, bl, p, q) br e f =
      let a = height right in
      let b = height ll in
      let c = height lr in
      let low : ltb (k + 1) a ≡ false = ground arith in
      let high : ltb (a + 1) k ≡ true = ground arith in
      let lean : c ≤ b = ground arith in
      let inner : ℕ = 1 + larger c a in
      let deep : larger c a ≡ max c a = larger-max _ _ in
      let top : larger b inner ≡ max b inner = larger-max _ _ in
      let t : Tree A = node ll y (node lr x right inner) (1 + larger b inner) in
      let balanced : IsBalanced t = (
        bll,
        (blr, br, omega arith, omega arith, omega arith),
        omega arith,
        omega arith,
        omega arith,
      ) in
      rw (below_minus_one-sub k a, low, above_one-sub k a, high, below_zero-sub b c, f)
        (
          t,
          refl,
          record {
            order = simp append_assoc;
            balanced = balanced;
            least = omega arith;
            most = omega arith;
            level = λ even odd. absurd (omega arith);
          },
        )

  -- The left subtree is two levels higher, and leans to the right.
  balance-left_right :
      (ll : Tree A) (y : A) (lrl : Tree A) (z : A) (lrr : Tree A) (m k : ℕ) (x : A) (right : Tree A)
      (h : ℕ)
      → IsBalanced (node ll y (node lrl z lrr m) k)
      → IsBalanced right
      → k ≡ height right + 2
      → ltb (height ll) m ≡ true
      → (t : Tree A) × (balance (node (node ll y (node lrl z lrr m) k) x right h) ≡ some t)
        × Balances (node ll y (node lrl z lrr m) k) x right t
  unfolding balance
  balance-left_right ll y lrl z lrr m k x right h (bll, (brl, brr, bm, u, v), bl, p, q) br e f =
      let a = height right in
      let b = height lrl in
      let b' = height lrr in
      let c = height ll in
      let low : ltb (k + 1) a ≡ false = ground arith in
      let high : ltb (a + 1) k ≡ true = ground arith in
      let lean : c < m = ground arith in
      let inner : ℕ = 1 + larger c b in
      let outer : ℕ = 1 + larger b' a in
      let deep : larger c b ≡ max c b = larger-max _ _ in
      let wide : larger b' a ≡ max b' a = larger-max _ _ in
      let top : larger inner outer ≡ max inner outer = larger-max _ _ in
      let t : Tree A =
        node (node ll y lrl inner) z (node lrr x right outer) (1 + larger inner outer) in
      let balanced : IsBalanced t = (
        (bll, brl, omega arith, omega arith, omega arith),
        (brr, br, omega arith, omega arith, omega arith),
        omega arith,
        omega arith,
        omega arith,
      ) in
      rw (below_minus_one-sub k a, low, above_one-sub k a, high, below_zero-sub c m, f)
        (
          t,
          refl,
          record {
            order = simp append_assoc;
            balanced = balanced;
            least = omega arith;
            most = omega arith;
            level = λ even odd. absurd (omega arith);
          },
        )

  balance-right :
      (left : Tree A) (x : A) (right : Tree A) (h : ℕ)
      → IsBalanced left
      → IsBalanced right
      → height right ≡ height left + 2
      → (t : Tree A) × (balance (node left x right h) ≡ some t) × Balances left x right t
  balance-right left x leaf h bl br e = absurd (omega arith)
  balance-right left x (node leaf y rr k) h bl br e =
      balance-right_right left x leaf y rr k h bl br e (ground arith)
  balance-right left x (node (node rll z rlr m) y rr k) h bl br e =
      elim (Bool-cases (ltb (height rr) m)) [
        | inl lean ↦ balance-right_left left x rll z rlr m y rr k h bl br e lean
        | inr even ↦ balance-right_right left x (node rll z rlr m) y rr k h bl br e even
      ]

  balance-left :
      (left : Tree A) (x : A) (right : Tree A) (h : ℕ)
      → IsBalanced left
      → IsBalanced right
      → height left ≡ height right + 2
      → (t : Tree A) × (balance (node left x right h) ≡ some t) × Balances left x right t
  balance-left leaf x right h bl br e = absurd (omega arith)
  balance-left (node ll y leaf k) x right h bl br e =
      balance-left_left ll y leaf k x right h bl br e (ground arith)
  balance-left (node ll y (node lrl z lrr m) k) x right h bl br e =
      elim (Bool-cases (ltb (height ll) m)) [
        | inl lean ↦ balance-left_right ll y lrl z lrr m k x right h bl br e lean
        | inr even ↦ balance-left_left ll y (node lrl z lrr m) k x right h bl br e even
      ]

  -- At a node whose subtrees are balanced and differ by two levels at most, `__avl_tree_balance`
  -- reads no NULL and returns a balanced tree of the same elements in the same order. Its height is
  -- the larger one of the subtrees or one more, and is one more if they differed by one level at
  -- most.
  pub balance-Balances :
      (left : Tree A) (x : A) (right : Tree A) (h : ℕ)
      → IsBalanced left
      → IsBalanced right
      → height left ≤ height right + 2
      → height right ≤ height left + 2
      → (t : Tree A) × (balance (node left x right h) ≡ some t) × Balances left x right t
  balance-Balances left x right h bl br p q = elim (dec_lt (height left + 1) (height right)) [
    | yes deep ↦ balance-right left x right h bl br (omega arith)
    | no shallow ↦ elim (dec_lt (height right + 1) (height left)) [
      | yes deep ↦ balance-left left x right h bl br (omega arith)
      | no flat ↦ balance-even left x right h bl br (omega arith) (omega arith)
    ]
  ]

  -- The height is one more than the larger one of the subtrees, unless they differ by two levels.
  pub height-cases :
      {left : Tree A} {x : A} {right t : Tree A}
      → Balances left x right t
      → (height t ≡ 1 + max (height left) (height right))
        ⊎ (height right + 2 ≤ height left)
        ⊎ (height left + 2 ≤ height right)
  height-cases {left} {right} w = elim (dec_lt (height left + 1) (height right)) [
    | yes deep ↦ inr (inr (omega arith))
    | no shallow ↦ elim (dec_lt (height right + 1) (height left)) [
      | yes deep ↦ inr (inl (omega arith))
      | no flat ↦ inl (w.level (omega arith) (omega arith))
    ]
  ]
