-- ===== src/AvlTree/Reached.antt =====
-- The trees that a program reaches by `avl_tree_create`, `avl_tree_insert` and `avl_tree_delete`.
use Prim.Native.Nat.{max}
use mathlib.Core.Option.{some-injective}
use data_structures.Prelude.{
  ℕ, suc, ◌+◌, ◌≤◌, ◌≡◌, refl, ap, arith, sym, ◌∙◌, true, Option, some, List, [], length, ℤ, pos,
}
use data_structures.Compare.{IsOrder}
use data_structures.AvlTree.{Removal, kept, gone, dataless, returned}
use data_structures.AvlTree.Nodes.{Tree, leaf, node, height}
use data_structures.AvlTree.Spec.{in_order, IsSorted, insert_sorted, remove_sorted}
use data_structures.AvlTree.Balanced.{IsBalanced}
use data_structures.AvlTree.Sorted.{remove_sorted-IsSorted}
use data_structures.AvlTree.Delete.{delete_node_correct}
use data_structures.AvlTree.Entry.{Entry, attached, create, insert, delete, removed}
use data_structures.AvlTree.Api.{entry_at, Holds, avl_insert_correct}
use data_structures.AvlTree.Height.{half_power, half_power-le-length}

-- the nodes on a longest path down from the root
abbrev pub depth {ℓ} : {A : Type ℓ} → Tree A → ℕ
depth leaf = 0
depth (node l x r h) = suc (max (depth l) (depth r))

height-depth {ℓ} : {A : Type ℓ} (t : Tree A) → IsBalanced t → height t ≡ depth t
height-depth leaf b = refl
height-depth (node l x r h) (bl, br, e, p, q) =
    let left = height-depth l bl in let right = height-depth r br in omega arith

module _ {ℓ} {A : Type ℓ} (alloc : A → Option A) (cmp : A → A → ℤ) where
  -- the entries of a program, as long as its calls succeed
  pub data Reaches : Option (Entry A) → Type ℓ where
    created :
        (entry : Entry A)
        → create true (some alloc) true (some cmp) true ≡ some entry
        → Reaches (some entry)
    inserted :
        (entry entry' : Option (Entry A)) (d : A)
        → Reaches entry
        → insert entry (some d) ≡ some (entry', pos 0)
        → Reaches entry'
    deleted :
        (entry entry' : Option (Entry A)) (d : A)
        → Reaches entry
        → delete entry (some d) ≡ some (entry', pos 0)
        → Reaches entry'

  -- Two answers of one call.
  same_answer :
      (answer : Option (Option (Entry A) × ℤ)) (entry entry' : Option (Entry A)) (s s' : ℤ)
      → answer ≡ some (entry, s)
      → answer ≡ some (entry', s')
      → (entry ≡ entry') × (s ≡ s')
  same_answer answer entry entry' s s' e e' =
      let out : Option (Entry A) × ℤ = (entry, s) in
      let out' : Option (Entry A) × ℤ = (entry', s') in
      let both : some out ≡ some out' = sym e ∙ e' in
      let same = some-injective out out' both in (ap (λ o. o.0) same, ap (λ o. o.1) same)

  -- A deletion that returns 0 leaves a tree.
  removed-kept :
      (t : Tree A) (m : Removal A) (xs : List A) (entry' : Option (Entry A))
      → in_order (returned m) ≡ xs
      → IsBalanced (returned m)
      → IsSorted cmp xs
      → some (removed (entry_at alloc cmp (attached t)) t m).0 ≡ entry'
      → (removed (entry_at alloc cmp (attached t)) t m).1 ≡ pos 0
      → Holds alloc cmp xs entry'
  removed-kept t (kept t') xs entry' e b s at z = record {
    tree = t';
    at = sym at;
    order = e;
    sorted = s;
    balanced = b;
  }
  removed-kept leaf gone xs entry' e b s at z = cc z
  removed-kept (node l x r h) gone xs entry' e b s at z = cc z
  removed-kept t (dataless l r h) xs entry' e b s at z = cc z

  module _ (o : IsOrder cmp) (copies : (a : A) → alloc a ≡ some a) where
    delete-Holds :
        (xs : List A) (entry entry' : Option (Entry A)) (d : A)
        → Holds alloc cmp xs entry
        → delete entry (some d) ≡ some (entry', pos 0)
        → Holds alloc cmp (remove_sorted cmp d xs) entry'
    unfolding delete
    delete-Holds xs entry entry' d h run =
        let s : IsSorted cmp (in_order h.tree) = rw h.order h.sorted in
        let (m, answer, w) = delete_node_correct o alloc copies h.tree d s h.balanced in
        let (left, status) = removed (entry_at alloc cmp (attached h.tree)) h.tree m in
        let answers : delete entry (some d) ≡ some (some left, status) = rw (h.at, answer) refl in
        let (same, zero) =
          same_answer (delete entry (some d)) (some left) entry' status (pos 0) answers run in
        removed-kept h.tree m (remove_sorted cmp d xs) entry'
          (w.order ∙ ap (remove_sorted cmp d) h.order) w.balanced
          (remove_sorted-IsSorted o d xs h.sorted) same zero

    reaches-Holds :
        (entry : Option (Entry A)) → Reaches entry → (xs : List A) × Holds alloc cmp xs entry
    unfolding create
    reaches-Holds _ (created entry e) =
        let empty : entry_at alloc cmp (attached leaf) ≡ entry =
          some-injective (entry_at alloc cmp (attached leaf)) entry e in
        (
          [],
          record {
            tree = leaf;
            at = ap some (sym empty);
            order = refl;
            sorted = tt;
            balanced = tt;
          },
        )
    reaches-Holds entry' (inserted entry _ d before e) =
        let (xs, h) = reaches-Holds entry before in
        let (entry'', run, h') = avl_insert_correct alloc cmp o copies xs entry d h in
        (
          insert_sorted cmp d xs,
          rw (← (same_answer (insert entry (some d)) entry'' entry' (pos 0) (pos 0) run e).0) h',
        )
    reaches-Holds entry' (deleted entry _ d before e) =
        let (xs, h) = reaches-Holds entry before in
        (remove_sorted cmp d xs, delete-Holds xs entry entry' d h e)

    -- With a comparison that orders and copies that succeed, every entry that
    -- avl_tree_create, and any avl_tree_insert and avl_tree_delete after it that return 0,
    -- reach holds a tree whose elements in order are sorted, and which for n elements has a
    -- depth d with 2 ^ (d / 2) at most n + 1, the half rounded down.
    pub avl_reaches-depth :
        (entry : Option (Entry A))
        → Reaches entry
        → (tree : Tree A) × (entry ≡ some (entry_at alloc cmp (attached tree)))
          × IsSorted cmp (in_order tree)
          × (half_power (depth tree) ≤ length (in_order tree) + 1)
    avl_reaches-depth entry reached =
        let (xs, h) = reaches-Holds entry reached in
        (
          h.tree,
          h.at,
          rw h.order h.sorted,
          rw (height-depth h.tree h.balanced) at (half_power-le-length h.tree h.balanced),
        )
