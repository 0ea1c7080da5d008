-- ===== src/SinglyLinkedList/Tests.antt =====
-- The operations on concrete lists.
use data_structures.Prelude.{
  ℕ, ◌≡◌, refl, true, false, some, List, [], ◌∷◌, ℤ, pos, sub_ℕ, is_pos, arith, All,
}
use data_structures.Compare.{IsOrder}
use data_structures.SinglyLinkedList.{
  insert_first, insert_last, delete_first, delete_last, print_reverse, is_palindrome,
  ordered_delete_duplicates,
}
use data_structures.SinglyLinkedList.Place.{IsFirst}
use data_structures.SinglyLinkedList.Ends.{delete-insert}
use data_structures.SinglyLinkedList.Palindrome.{agree, is_palindrome_correct}
use data_structures.SinglyLinkedList.Duplicates.{
  IsAscending, IsStrict, Has, delete_duplicates_correct,
}

abbrev cmp : ℕ → ℕ → ℤ
cmp x y = sub_ℕ x y

cmp-IsOrder : IsOrder cmp
cmp-IsOrder = record { flip = λ x y. ground arith; chain = λ x y z h k. ground arith }

abbrev two : List ℕ
two = 3 ∷ 5 ∷ []

two-IsFirst : IsFirst cmp 5 (3 ∷ []) 5
two-IsFirst = record { before = (refl, tt); hit = refl }

delete-insert_example :
    ((insert_first true two 9).1 ≡ pos 0)
    × (delete_first (insert_first true two 9).0 ≡ (two, pos 0, some 9))
    × ((insert_last true two 9).1 ≡ pos 0)
    × (delete_last (insert_last true two 9).0 ≡ (two, pos 0, some 9))
delete-insert_example = delete-insert two 9

is_palindrome_example :
    (rest : List ℕ) × (is_palindrome cmp (3 ∷ 5 ∷ 3 ∷ []) (3 ∷ 5 ∷ 3 ∷ [])
      ≡ some (agree cmp (3 ∷ 5 ∷ 3 ∷ []) (print_reverse (3 ∷ 5 ∷ 3 ∷ [])), rest))
is_palindrome_example = is_palindrome_correct cmp (3 ∷ 5 ∷ 3 ∷ [])

delete_duplicates_example :
    IsStrict cmp (ordered_delete_duplicates cmp (3 ∷ 3 ∷ 5 ∷ []))
    × All (Has cmp (ordered_delete_duplicates cmp (3 ∷ 3 ∷ 5 ∷ []))) (3 ∷ 3 ∷ 5 ∷ [])
delete_duplicates_example =
    let above_five : All (λ y. is_pos (cmp 3 y) ≡ false) (5 ∷ []) = (refl, tt) in
    let five : IsAscending cmp (5 ∷ []) = (tt, tt) in
    let three : IsAscending cmp (3 ∷ 5 ∷ []) = (above_five, five) in
    let above : All (λ y. is_pos (cmp 3 y) ≡ false) (3 ∷ 5 ∷ []) = (refl, above_five) in
    delete_duplicates_correct cmp cmp-IsOrder (3 ∷ 3 ∷ 5 ∷ []) (above, three)
