-- ===== src/Compare.antt =====
-- The contract of the comparison callbacks (`cmp_fn` of include/heap and include/tree): the sign of
-- the returned `int` is that of a total preorder. The program does not implement them; they are a
-- parameter of every component that compares.
use data_structures.Prelude.{◌≡◌, arith, true, false, ℤ, is_neg, is_pos}

pub record IsOrder {ℓ} {A : Type ℓ} (cmp : A → A → ℤ) : Type ℓ where
  -- `cmp(x, y) > 0` exactly when `cmp(y, x) < 0`
  pub flip : (x y : A) → is_pos (cmp x y) ≡ is_neg (cmp y x)
  -- `x` not above `y` and `y` not above `z`: `x` is not above `z`
  pub chain :
      (x y z : A) → is_pos (cmp x y) ≡ false → is_pos (cmp y z) ≡ false → is_pos (cmp x z) ≡ false

module _ {ℓ} {A : Type ℓ} {cmp : A → A → ℤ} (o : IsOrder cmp) where
  -- what lies below an element that is not above `d` lies below `d`
  pub below_trans :
      (y x d : A) → is_neg (cmp y x) ≡ true → is_neg (cmp d x) ≡ false → is_pos (cmp d y) ≡ true
  below_trans y x d h k = ground (arith, o.flip x y, o.flip x d, o.chain x d y)

  -- what lies above an element that is not below `d` lies above `d`
  pub above_trans :
      (x z d : A) → is_neg (cmp x z) ≡ true → is_pos (cmp d x) ≡ false → is_neg (cmp d z) ≡ true
  above_trans x z d h k = ground (arith, o.flip z x, o.flip z d, o.chain z d x)

  pub neg_trans :
      (x y z : A) → is_neg (cmp x y) ≡ true → is_neg (cmp y z) ≡ true → is_neg (cmp x z) ≡ true
  neg_trans x y z h k =
      ground (arith, o.flip z x, o.flip y x, o.flip z y, o.flip x y, o.chain z x y, o.chain y z x)
