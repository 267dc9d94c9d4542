-- ===== src/Courses/Wishlist.antt =====
-- The wishlist of modules/courses/service.ts.
use package.ayo_snbt_backend.Common.{
  ℕ, not, none, some, List, [], ◌∷◌, ◌++◌, ◌==◌, if◌then◌else◌, any, first, select,
}
use package.ayo_snbt_backend.Common.Action.{
  Action, throw_if, or_throw, gets, modify, ◌>>=◌, ◌>>◌, bad_request_error, not_found_error,
  bad_request,
}
use package.ayo_snbt_backend.Courses.Data.{is_published, WishlistRow, Db, is_live, is_wish}

unfoldable pub insert_wish : ℕ → ℕ → ℕ → List WishlistRow → List WishlistRow
insert_wish now user course rows =
    if any (is_wish user course) rows
    then rows
    else rows ++ record { user_id = user; course_id = course; created_at = now } ∷ []

-- `addWishlist`.
unfoldable pub add_wishlist : ℕ → ℕ → ℕ → Action Db (Unit {0})
unfolding insert_wish
add_wishlist now user_id course_id = do
  found ← gets (λ db. first (is_live course_id) db.courses)
  c ← or_throw found not_found_error
  throw_if (not (is_published c.status)) (bad_request_error bad_request)
  modify (λ db. record db { wishlist = insert_wish now user_id course_id db.wishlist })

-- `removeWishlist`.
unfoldable pub remove_wishlist : ℕ → ℕ → Action Db (Unit {0})
remove_wishlist user_id course_id =
    modify
      (λ db. record db { wishlist = select (λ w. not (is_wish user_id course_id w)) db.wishlist })

-- `listWishlist`, before the order: the rows joined with the courses that are not deleted.
unfoldable pub list_wishlist : ℕ → Db → List (ℕ × ℕ)
list_wishlist user_id db = joined db.wishlist
  where
    joined : List WishlistRow → List (ℕ × ℕ)
    joined [] = []
    joined (w ∷ ws) =
        let rest = joined ws in
        if w.user_id == user_id
        then elim (first (is_live w.course_id) db.courses) [
          | none ↦ rest
          | some c ↦ (c.id, w.created_at) ∷ rest
        ]
        else rest
