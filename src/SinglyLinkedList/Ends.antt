-- ===== src/SinglyLinkedList/Ends.antt =====
-- The ends and the middle of a list of src/list/singly_linked_list.c.
use data_structures.Prelude.{
  suc, ◌/◌, ◌<◌, ◌≡◌, refl, ap, arith, true, some, List, [], ◌∷◌, ◌++◌, pos, length, get_elem?,
  get_or, get_elem?-eq-get_or,
}
use data_structures.SinglyLinkedList.{
  rejoin, link_last, unlink_last, insert_first, insert_last, delete_first, delete_last, middle_loop,
  print_middle,
}

module _ {ℓ} {A : Type ℓ} where
  link_last-append : (xs : List A) (d : A) → link_last xs d ≡ xs ++ d ∷ []
  link_last-append [] d = refl
  link_last-append (x ∷ xs) d = ap (◌∷◌ x) (link_last-append xs d)

  unlink_last-append :
      (passed : List A) (x : A) (ys : List A) (d : A)
      → unlink_last passed x (ys ++ d ∷ []) ≡ (rejoin passed (x ∷ ys), pos 0, some d)
  unlink_last-append passed x [] d = refl
  unlink_last-append passed x (y ∷ ys) d = unlink_last-append (x ∷ passed) y ys d

  -- What `slist_insert_first` or `slist_insert_last` added, with status 0, `slist_delete_first` or
  -- `slist_delete_last` takes off again, and the list is as it was.
  pub delete-insert :
      (xs : List A) (d : A)
      → ((insert_first true xs d).1 ≡ pos 0)
        × (delete_first (insert_first true xs d).0 ≡ (xs, pos 0, some d))
        × ((insert_last true xs d).1 ≡ pos 0)
        × (delete_last (insert_last true xs d).0 ≡ (xs, pos 0, some d))
  unfolding insert_first insert_last delete_first delete_last
  delete-insert [] d = (refl, refl, refl, refl)
  delete-insert (x ∷ xs) d =
      (refl, refl, refl, rw (link_last-append xs d) (unlink_last-append [] x xs d))

  middle_loop-get :
      (slow fast : List A)
      → length fast / 2 < length slow
      → middle_loop slow fast ≡ get_elem? slow (length fast / 2)
  unfolding middle_loop
  middle_loop-get [] fast h = absurd (omega arith)
  middle_loop-get (x ∷ slow) [] h = refl
  middle_loop-get (x ∷ slow) (y ∷ []) h = refl
  middle_loop-get (x ∷ slow) (y ∷ z ∷ fast) h =
      let half : suc (suc (length fast)) / 2 ≡ suc (length fast / 2) = omega arith in
      rw half (middle_loop-get slow fast (omega arith))

  -- `slist_print_middle` on a list that is not empty prints the element with the index of half the
  -- length, and never follows a NULL pointer.
  pub print_middle_correct :
      (x : A) (xs : List A)
      → (y : A) × (print_middle (x ∷ xs) ≡ some (some y))
        × (get_elem? (x ∷ xs) (length (x ∷ xs) / 2) ≡ some y)
  unfolding print_middle
  print_middle_correct x xs =
      let inside : length (x ∷ xs) / 2 < length (x ∷ xs) = omega arith in
      let y = get_or (x ∷ xs) (length (x ∷ xs) / 2) x in
      let got = get_elem?-eq-get_or (x ∷ xs) (length (x ∷ xs) / 2) x inside in
      rw (middle_loop-get (x ∷ xs) (x ∷ xs) inside, got) (y, refl, refl)
