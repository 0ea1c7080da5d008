-- ===== src/AvlTree/Tests.antt =====
-- Runs of the tree on numbers, and the theorems at concrete trees.
use data_structures.Prelude.{
  ℕ, ◌≤◌, ◌+◌, ◌≡◌, refl, arith, true, Option, none, some, [], ◌∷◌, ℤ, pos, negsuc, sub_ℕ, length,
}
use data_structures.Compare.{IsOrder}
use data_structures.AvlTree.{insert_node, delete_node, lookup_node, kept}
use data_structures.AvlTree.Nodes.{Tree, leaf, node, balance}
use data_structures.AvlTree.Spec.{in_order, IsSorted}
use data_structures.AvlTree.Entry.{Entry, attached, create, insert, delete, pre_order_print}
use data_structures.AvlTree.Api.{
  entry_at, Holds, avl_insert_correct, avl_delete_correct, avl_insert-lost,
}
use data_structures.AvlTree.Height.{half_power}
use data_structures.AvlTree.Reached.{Reaches, created, inserted, depth, avl_reaches-depth}

abbrev cmp : ℕ → ℕ → ℤ
cmp = sub_ℕ

cmp-IsOrder : IsOrder cmp
cmp-IsOrder = record { flip = λ x y. ground arith; chain = λ x y z h k. ground arith }

-- 10, 20 and 30, with 20 at the root
abbrev three : Tree ℕ
three = node (node leaf 10 leaf 1) 20 (node leaf 30 leaf 1) 2

abbrev four : Tree ℕ
four = node (node leaf 10 leaf 1) 20 (node (node leaf 25 leaf 1) 30 leaf 2) 3

insert-four : insert_node cmp some three 25 ≡ some (four, true)
unfolding insert_node balance
insert-four = refl

-- the removal of 10 leans to the right, then to the left: a double rotation
delete-four :
    delete_node cmp some four 10
    ≡ some (kept (node (node leaf 20 leaf 1) 25 (node leaf 30 leaf 1) 2))
unfolding delete_node balance
delete-four = refl

-- the printed order of four elements is not the pre-order 20, 10, 30, 25
pre_order_print-four : pre_order_print four ≡ 20 ∷ 10 ∷ 25 ∷ 30 ∷ []
unfolding pre_order_print
pre_order_print-four = refl

three-Holds : Holds some cmp (10 ∷ 20 ∷ 30 ∷ []) (some (entry_at some cmp (attached three)))
three-Holds = record {
  tree = three;
  at = refl;
  order = refl;
  sorted = ((refl, (refl, tt)), ((refl, tt), (tt, tt)));
  balanced = omega arith;
}

avl_insert_example :
    (entry : Option (Entry ℕ)) × (insert (some (entry_at some cmp (attached three))) (some 25)
      ≡ some (entry, pos 0))
    × Holds some cmp (10 ∷ 20 ∷ 25 ∷ 30 ∷ []) entry
avl_insert_example =
    avl_insert_correct some cmp cmp-IsOrder (λ a. refl) (10 ∷ 20 ∷ 30 ∷ [])
      (some (entry_at some cmp (attached three))) 25 three-Holds

avl_delete_example :
    (entry : Option (Entry ℕ)) × (delete (some (entry_at some cmp (attached three))) (some 20)
      ≡ some (entry, pos 0))
    × Holds some cmp (10 ∷ 30 ∷ []) entry
avl_delete_example =
    avl_delete_correct some cmp cmp-IsOrder (λ a. refl) (10 ∷ 20 ∷ 30 ∷ [])
      (some (entry_at some cmp (attached three))) 20 three-Holds (λ e. cc)

abbrev no_memory : ℕ → Option ℕ
no_memory a = none

-- 30 is lost with its subtree
avl_insert-lost_example :
    insert (some (entry_at no_memory cmp (attached three))) (some 25)
    ≡ some
        (some (entry_at no_memory cmp (attached (node (node leaf 10 leaf 1) 20 leaf 2))), negsuc 0)
unfolding lookup_node
avl_insert-lost_example =
    avl_insert-lost no_memory cmp 25 refl (node leaf 10 leaf 1) 20 (node leaf 30 leaf 1) 2 refl

abbrev handle : Tree ℕ → Entry ℕ
handle t = entry_at some cmp (attached t)

abbrev one : Tree ℕ
one = node leaf 30 leaf 1

abbrev two : Tree ℕ
two = node (node leaf 20 leaf 1) 30 leaf 2

create-handle : create true (some some) true (some cmp) true ≡ some (handle leaf)
unfolding create
create-handle = refl

insert-one : insert (some (handle leaf)) (some 30) ≡ some (some (handle one), pos 0)
unfolding insert insert_node balance
insert-one = refl

insert-two : insert (some (handle one)) (some 20) ≡ some (some (handle two), pos 0)
unfolding insert insert_node balance
insert-two = refl

-- the insertion of 10 turns the tree
insert-three : insert (some (handle two)) (some 10) ≡ some (some (handle three), pos 0)
unfolding insert insert_node balance
insert-three = refl

three-Reached : Reaches some cmp (some (handle three))
three-Reached =
    inserted (some (handle two)) (some (handle three)) 10
      (inserted (some (handle one)) (some (handle two)) 20
        (inserted (some (handle leaf)) (some (handle one)) 30 (created (handle leaf) create-handle)
          insert-one)
        insert-two)
      insert-three

avl_reaches-depth_example :
    (tree : Tree ℕ) × (some (handle three) ≡ some (handle tree))
    × IsSorted cmp (in_order tree)
    × (half_power (depth tree) ≤ length (in_order tree) + 1)
avl_reaches-depth_example =
    avl_reaches-depth some cmp cmp-IsOrder (λ a. refl) (some (handle three)) three-Reached
