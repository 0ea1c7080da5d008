-- ===== src/SinglyLinkedList.antt =====
-- src/list/singly_linked_list.c and include/list/singly_linked_list.h: lists without a loop. The
-- pointer `head` is the list of the data of its nodes, and NULL is the empty list. A function that
-- updates the list returns it with the status; one that frees a node returns its data too.
-- `allocated` says whether `malloc` succeeds.
pub mod Place
pub mod Ends
pub mod Palindrome
pub mod Duplicates
mod Tests
use data_structures.Prelude.{
  ℕ, zero, suc, Bool, true, false, Option, none, some, List, [], ◌∷◌, ◌++◌, if◌then◌else◌, ℤ, pos,
  negsuc, is_zero, ◌>>=◌,
}

module _ {ℓ} {A : Type ℓ} where
  -- The nodes that a loop has passed, nearest first, and the rest, put together again.
  abbrev pub rejoin : List A → List A → List A
  rejoin [] it = it
  rejoin (x ∷ passed) it = rejoin passed (x ∷ it)

  -- The loops that stop at a node: what they passed, `prev` first, and `it`.
  abbrev pub seek : (A → Bool) → List A → List A → List A × List A
  seek stop passed [] = (passed, [])
  seek stop passed (x ∷ it) =
      let rest = seek stop (x ∷ passed) it in if stop x then (passed, x ∷ it) else rest

  unfoldable pub insert_first : (allocated : Bool) → List A → A → List A × ℤ
  insert_first allocated head x = if allocated then (x ∷ head, pos 0) else (head, negsuc 0)

  abbrev pub link_after : Bool → List A → List A × List A → A → List A × ℤ
  link_after allocated head (passed, []) new = (head, negsuc 1)
  link_after allocated head (passed, x ∷ next) new =
      if allocated then (rejoin passed (x ∷ new ∷ next), pos 0) else (head, negsuc 2)

  abbrev pub link_before : Bool → List A → List A × List A → A → List A × ℤ
  link_before allocated head (passed, []) new = (head, negsuc 1)
  link_before allocated head (passed, x ∷ next) new =
      if allocated then (rejoin passed (new ∷ x ∷ next), pos 0) else (head, negsuc 2)

  -- the loop to the last node, which is linked to the new one
  abbrev pub link_last : List A → A → List A
  link_last [] new = new ∷ []
  link_last (x ∷ it) new = x ∷ link_last it new

  unfoldable pub insert_last : (allocated : Bool) → List A → A → List A × ℤ
  insert_last allocated head new =
      if allocated then (link_last head new, pos 0) else (head, negsuc 0)

  unfoldable pub delete_first : List A → List A × ℤ × Option A
  delete_first [] = ([], negsuc 0, none)
  delete_first (x ∷ next) = (next, pos 0, some x)

  abbrev pub unlink_after : List A → List A × List A → List A × ℤ × Option A
  unlink_after head (passed, []) = (head, negsuc 1, none)
  unlink_after head (passed, x ∷ []) = (head, negsuc 1, none)
  unlink_after head (passed, x ∷ y ∷ next) = (rejoin passed (x ∷ next), pos 0, some y)

  abbrev pub unlink_before : List A → List A × List A → List A × ℤ × Option A
  unlink_before head (passed, []) = (head, negsuc 1, none)
  unlink_before head ([], x ∷ next) = (head, negsuc 1, none)
  unlink_before head (prev ∷ passed, x ∷ next) = (rejoin passed (x ∷ next), pos 0, some prev)

  -- The loop to the last node `it`, which is unlinked from `prev` or from `head`.
  abbrev pub unlink_last : (prev : List A) → A → List A → List A × ℤ × Option A
  unlink_last passed x [] = (rejoin passed [], pos 0, some x)
  unlink_last passed x (y ∷ it) = unlink_last (x ∷ passed) y it

  unfoldable pub delete_last : List A → List A × ℤ × Option A
  delete_last [] = ([], negsuc 0, none)
  delete_last (x ∷ it) = unlink_last [] x it

  unfoldable pub get_nth : List A → ℕ → List A
  get_nth head zero = head
  get_nth [] (suc n) = []
  get_nth (x ∷ head) (suc n) = get_nth head n

  unfoldable pub print : List A → List A
  print [] = []
  print (x ∷ head) = x ∷ print head

  unfoldable pub print_reverse : List A → List A
  print_reverse [] = []
  print_reverse (x ∷ head) = print_reverse head ++ x ∷ []

  -- The loop of the two pointers; `none` is NULL dereferenced.
  unfoldable pub middle_loop : (slow fast : List A) → Option A
  middle_loop [] fast = none
  middle_loop (x ∷ slow) [] = some x
  middle_loop (x ∷ slow) (y ∷ []) = some x
  middle_loop (x ∷ slow) (y ∷ z ∷ fast) = middle_loop slow fast

  -- `some none` where nothing is printed
  unfoldable pub print_middle : List A → Option (Option A)
  unfolding middle_loop
  print_middle [] = some none
  print_middle (x ∷ head) = middle_loop (x ∷ head) (x ∷ head) >>= λ y. some (some y)

  module _ (cmp : A → A → ℤ) where
    abbrev pub stops_at : A → A → Bool
    stops_at d x = is_zero (cmp x d)

    unfoldable pub insert_after : (allocated : Bool) → List A → A → A → List A × ℤ
    insert_after allocated [] prev_data new = ([], negsuc 0)
    insert_after allocated (x ∷ head) prev_data new =
        link_after allocated (x ∷ head) (seek (stops_at prev_data) [] (x ∷ head)) new

    unfoldable pub insert_before : (allocated : Bool) → List A → A → A → List A × ℤ
    insert_before allocated [] after_data new = ([], negsuc 0)
    insert_before allocated (x ∷ head) after_data new =
        link_before allocated (x ∷ head) (seek (stops_at after_data) [] (x ∷ head)) new

    unfoldable pub delete_after : List A → A → List A × ℤ × Option A
    delete_after [] prev_data = ([], negsuc 0, none)
    delete_after (x ∷ head) prev_data =
        unlink_after (x ∷ head) (seek (stops_at prev_data) [] (x ∷ head))

    unfoldable pub delete_before : List A → A → List A × ℤ × Option A
    delete_before [] after_data = ([], negsuc 0, none)
    delete_before (x ∷ head) after_data =
        unlink_before (x ∷ head) (seek (stops_at after_data) [] (x ∷ head))

    -- The comparison on the way back, and the step of `*left`.
    abbrev pub compare_left : Bool → List A → A → Option (Bool × List A)
    compare_left false left x = some (false, left)
    compare_left true [] x = none
    compare_left true (y ∷ left) x = some (is_zero (cmp y x), left)

    unfoldable pub is_palindrome : (left right : List A) → Option (Bool × List A)
    is_palindrome left [] = some (true, left)
    is_palindrome left (x ∷ right) = is_palindrome left right >>= λ out. compare_left out.0 out.1 x

    -- The loop after the node `prev`.
    unfoldable pub skip_duplicates : A → List A → List A
    skip_duplicates prev [] = []
    skip_duplicates prev (x ∷ it) =
        let without = skip_duplicates prev it in
        let rest = skip_duplicates x it in if is_zero (cmp x prev) then without else x ∷ rest

    unfoldable pub ordered_delete_duplicates : List A → List A
    unfolding skip_duplicates
    ordered_delete_duplicates [] = []
    ordered_delete_duplicates (x ∷ head) = x ∷ skip_duplicates x head
