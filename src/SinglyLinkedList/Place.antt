-- ===== src/SinglyLinkedList/Place.antt =====
-- The insertions and deletions of src/list/singly_linked_list.c beside a node that is looked up.
use data_structures.Prelude.{
  ◌≡◌, refl, ap, Bool, true, false, none, some, List, [], ◌∷◌, ◌++◌, ℤ, pos, negsuc, All,
}
use data_structures.SinglyLinkedList.{
  rejoin, seek, link_after, link_before, unlink_after, unlink_before, insert_after, insert_before,
  delete_after, delete_before, stops_at,
}

module _ {ℓ} {A : Type ℓ} where
  rejoin-rejoin : (pre acc post : List A) → rejoin (rejoin pre acc) post ≡ rejoin acc (pre ++ post)
  rejoin-rejoin [] acc post = refl
  rejoin-rejoin (x ∷ pre) acc post = rejoin-rejoin pre (x ∷ acc) post

  rejoin-append : (pre ys acc : List A) → rejoin (pre ++ ys) acc ≡ rejoin ys (rejoin pre acc)
  rejoin-append [] ys acc = refl
  rejoin-append (x ∷ pre) ys acc = rejoin-append pre ys (x ∷ acc)

  seek-stop :
      (stop : A → Bool) (passed pre : List A) (x : A) (post : List A)
      → All (λ y. stop y ≡ false) pre
      → stop x ≡ true
      → seek stop passed (pre ++ x ∷ post) ≡ (rejoin pre passed, x ∷ post)
  seek-stop stop passed [] x post h e = rw e refl
  seek-stop stop passed (y ∷ pre) x post (f, h) e =
      rw f (seek-stop stop (y ∷ passed) pre x post h e)

  seek-end :
      (stop : A → Bool) (passed xs : List A)
      → All (λ y. stop y ≡ false) xs
      → (passed' : List A) × (seek stop passed xs ≡ (passed', []))
  seek-end stop passed [] h = (passed, refl)
  seek-end stop passed (x ∷ xs) (f, h) = rw f (seek-end stop (x ∷ passed) xs h)

  abbrev pub empty_or_missing : List A → ℤ
  empty_or_missing [] = negsuc 0
  empty_or_missing (x ∷ xs) = negsuc 1

  module _ (cmp : A → A → ℤ) (d : A) where
    -- `x` is the first element of the list that compares equal to `d`.
    pub record IsFirst (pre : List A) (x : A) : Type ℓ where
      pub before : All (λ y. stops_at cmp d y ≡ false) pre
      pub hit : stops_at cmp d x ≡ true

    after-seek :
        (allocated : Bool) (pre : List A) (x : A) (post : List A) (new : A)
        → insert_after cmp allocated (pre ++ x ∷ post) d new
          ≡ link_after allocated (pre ++ x ∷ post) (seek (stops_at cmp d) [] (pre ++ x ∷ post)) new
    unfolding insert_after
    after-seek allocated [] x post new = refl
    after-seek allocated (y ∷ pre) x post new = refl

    before-seek :
        (allocated : Bool) (pre : List A) (x : A) (post : List A) (new : A)
        → insert_before cmp allocated (pre ++ x ∷ post) d new
          ≡ link_before allocated (pre ++ x ∷ post) (seek (stops_at cmp d) [] (pre ++ x ∷ post)) new
    unfolding insert_before
    before-seek allocated [] x post new = refl
    before-seek allocated (y ∷ pre) x post new = refl

    -- Beside the first element that compares equal to the given one, `slist_insert_after` and
    -- `slist_insert_before` put the new one; if its node cannot be allocated, they return -3 and
    -- leave the list as it is.
    pub insert_beside :
        (pre : List A) (x : A) (post : List A) (new : A)
        → IsFirst pre x
        → (insert_after cmp true (pre ++ x ∷ post) d new ≡ (pre ++ x ∷ new ∷ post, pos 0))
          × (insert_before cmp true (pre ++ x ∷ post) d new ≡ (pre ++ new ∷ x ∷ post, pos 0))
          × (insert_after cmp false (pre ++ x ∷ post) d new ≡ (pre ++ x ∷ post, negsuc 2))
          × (insert_before cmp false (pre ++ x ∷ post) d new ≡ (pre ++ x ∷ post, negsuc 2))
    insert_beside pre x post new at =
        let stop = seek-stop (stops_at cmp d) [] pre x post at.before at.hit in
        (
          rw (after-seek true pre x post new, stop)
              (ap (λ ys. (ys, pos 0)) (rejoin-rejoin pre [] (x ∷ new ∷ post))),
          rw (before-seek true pre x post new, stop)
              (ap (λ ys. (ys, pos 0)) (rejoin-rejoin pre [] (new ∷ x ∷ post))),
          rw (after-seek false pre x post new, stop) refl,
          rw (before-seek false pre x post new, stop) refl,
        )

    delete_after-seek :
        (pre : List A) (x : A) (post : List A)
        → delete_after cmp (pre ++ x ∷ post) d
          ≡ unlink_after (pre ++ x ∷ post) (seek (stops_at cmp d) [] (pre ++ x ∷ post))
    unfolding delete_after
    delete_after-seek [] x post = refl
    delete_after-seek (y ∷ pre) x post = refl

    delete_before-seek :
        (pre : List A) (x : A) (post : List A)
        → delete_before cmp (pre ++ x ∷ post) d
          ≡ unlink_before (pre ++ x ∷ post) (seek (stops_at cmp d) [] (pre ++ x ∷ post))
    unfolding delete_before
    delete_before-seek [] x post = refl
    delete_before-seek (y ∷ pre) x post = refl

    -- `slist_delete_after` removes the element after the first one that compares equal to the given
    -- one, and returns -2 if that is the last of the list.
    pub delete_after_correct :
        (pre : List A) (x y : A) (post : List A)
        → IsFirst pre x
        → (delete_after cmp (pre ++ x ∷ y ∷ post) d ≡ (pre ++ x ∷ post, pos 0, some y))
          × (delete_after cmp (pre ++ x ∷ []) d ≡ (pre ++ x ∷ [], negsuc 1, none))
    delete_after_correct pre x y post at = (
      rw
          (
            delete_after-seek pre x (y ∷ post),
            seek-stop (stops_at cmp d) [] pre x (y ∷ post) at.before at.hit,
          )
          (ap (λ ys. (ys, pos 0, some y)) (rejoin-rejoin pre [] (x ∷ post))),
      rw (delete_after-seek pre x [], seek-stop (stops_at cmp d) [] pre x [] at.before at.hit) refl,
    )

    -- `slist_delete_before` removes the element before the first one that compares equal to the
    -- given one, and returns -2 if that is the first of the list.
    pub delete_before_correct :
        (pre : List A) (y x : A) (post : List A)
        → IsFirst (pre ++ y ∷ []) x
        → (delete_before cmp ((pre ++ y ∷ []) ++ x ∷ post) d ≡ (pre ++ x ∷ post, pos 0, some y))
          × (delete_before cmp (x ∷ post) d ≡ (x ∷ post, negsuc 1, none))
    delete_before_correct pre y x post at = (
      rw
          (
            delete_before-seek (pre ++ y ∷ []) x post,
            seek-stop (stops_at cmp d) [] (pre ++ y ∷ []) x post at.before at.hit,
            rejoin-append pre (y ∷ []) [],
          )
          (ap (λ ys. (ys, pos 0, some y)) (rejoin-rejoin pre [] (x ∷ post))),
      rw (delete_before-seek [] x post, at.hit) refl,
    )

    -- Where no element compares equal to the given one, the four functions leave the list as it is
    -- and return -2, or -1 for the empty list.
    pub unplaced :
        (allocated : Bool) (xs : List A) (new : A)
        → All (λ y. stops_at cmp d y ≡ false) xs
        → let status = empty_or_missing xs in
          (insert_after cmp allocated xs d new ≡ (xs, status))
          × (insert_before cmp allocated xs d new ≡ (xs, status))
          × (delete_after cmp xs d ≡ (xs, status, none))
          × (delete_before cmp xs d ≡ (xs, status, none))
    unfolding insert_after insert_before delete_after delete_before
    unplaced allocated [] new h = (refl, refl, refl, refl)
    unplaced allocated (x ∷ xs) new h =
        let (passed, end) = seek-end (stops_at cmp d) [] (x ∷ xs) h in
        (rw end refl, rw end refl, rw end refl, rw end refl)
