-- ===== src/Payments/Bundles.antt =====
-- `createBundle`, `updateBundle` and `getBundle` of modules/payments/service.ts. The new row's id is
-- an argument. The description and the times of a bundle are left out, and so are the audit log and
-- a status that is none of the three.
use package.ayo_snbt_backend.Common.{
  ℕ, suc, Bool, true, false, not, ◌&&◌, ◌||◌, Option, none, some, List, [], ◌∷◌, ◌++◌, leb, ◌==◌,
  if◌then◌else◌, first, select, update, any, all, or_else, ◌≡◌, refl,
}
use package.ayo_snbt_backend.Common.Action.{
  Action, pure, throw_if, or_throw, gets, modify, ◌>>=◌, ◌>>◌, bad_request_error, forbidden_error,
  not_found_error, other_error, validation_error, forbidden, throws,
}
use package.ayo_snbt_backend.Common.Keys.{by}
use package.ayo_snbt_backend.Payments.Data.{ItemStatus, draft, Course, Bundle, BundleCourse, Db}

-- The title is the trimmed one, `none` where it is missing or blank; a price that is not positive
-- is 0.
pub record NewBundle : Type 0 where
  pub title : Option ℕ
  pub price_cents : ℕ
  pub course_ids : List ℕ

pub record BundleInput : Type 0 where
  pub title : Option ℕ
  pub price_cents : Option ℕ
  pub status : Option ItemStatus
  pub course_ids : Option (List ℕ)

-- The id and the role of the user.
pub record Actor : Type 0 where
  pub id : ℕ
  pub is_admin : Bool

abbrev is_bundle_course : ℕ → ℕ → BundleCourse → Bool
is_bundle_course bundle course x = (x.bundle_id == bundle) && (x.course_id == course)

-- The rows of one insert, numbered from `i`, with `onConflictDoNothing()`.
unfoldable add_courses : ℕ → List ℕ → ℕ → List BundleCourse → List BundleCourse
add_courses bundle [] i rows = rows
add_courses bundle (c ∷ cs) i rows = add_courses bundle cs (suc i) (
    if any (is_bundle_course bundle c) rows
    then rows
    else rows ++ record { bundle_id = bundle; course_id = c; sort_order = i } ∷ [])

abbrev is_course : List Course → ℕ → Bool
is_course courses c = any (by (λ (x : Course). x.id) c) courses

-- The insert of a bundle's courses. A course that is not in its table breaks the foreign key, and
-- then no row is inserted.
unfoldable insert_courses : ℕ → List ℕ → Action Db (Unit {0})
unfolding add_courses
insert_courses bundle course_ids = do
  courses ← gets (λ db. db.courses)
  throw_if (not (all (is_course courses) course_ids)) other_error
  modify (λ db. record db { bundle_courses = add_courses bundle course_ids 0 db.bundle_courses })

abbrev is_empty : List ℕ → Bool
is_empty [] = true
is_empty (x ∷ xs) = false

abbrev new_bundle : ℕ → ℕ → ℕ → ℕ → Bundle
new_bundle id user title price_cents = record {
  id = id;
  title = title;
  status = draft;
  price_cents = price_cents;
  created_by = some user;
}

unfoldable pub create_bundle : ℕ → ℕ → NewBundle → Action Db Bundle
unfolding insert_courses
create_bundle id user input = do
  title ← or_throw input.title (bad_request_error validation_error)
  throw_if (input.price_cents == 0) (bad_request_error validation_error)
  throw_if (is_empty input.course_ids) (bad_request_error validation_error)
  modify
      (λ db. record db { bundles = db.bundles ++ new_bundle id user title input.price_cents ∷ [] })
  insert_courses id input.course_ids
  pure (new_bundle id user title input.price_cents)

-- A course of a bundle, as `getBundle` shows it.
pub record Item : Type 0 where
  pub course_id : ℕ
  pub title : ℕ
  pub sort_order : ℕ

-- The join of the bundle's rows with the courses.
unfoldable items_of : ℕ → List Course → List BundleCourse → List Item
items_of bundle courses [] = []
items_of bundle courses (x ∷ xs) =
    let rest = items_of bundle courses xs in
    if x.bundle_id == bundle
    then elim (first (by (λ (c : Course). c.id) x.course_id) courses) [
      | none ↦ rest
      | some c ↦ record { course_id = c.id; title = c.title; sort_order = x.sort_order } ∷ rest
    ]
    else rest

unfoldable insert_asc : Item → List Item → List Item
insert_asc x [] = x ∷ []
insert_asc x (y ∷ ys) =
    let rest = insert_asc x ys in if leb x.sort_order y.sort_order then x ∷ y ∷ ys else y ∷ rest

unfoldable sort_asc : List Item → List Item
unfolding insert_asc
sort_asc [] = []
sort_asc (x ∷ xs) = insert_asc x (sort_asc xs)

unfoldable pub get_bundle : ℕ → Action Db (Bundle × List Item)
unfolding items_of sort_asc
get_bundle id = do
  bundles ← gets (λ db. db.bundles)
  b ← or_throw (first (by (λ (x : Bundle). x.id) id) bundles) not_found_error
  items ← gets (λ db. sort_asc (items_of id db.courses db.bundle_courses))
  pure (b, items)

abbrev owns : Actor → Bundle → Bool
owns user b = user.is_admin || elim b.created_by [ none ↦ false | some u ↦ u == user.id ]

abbrev is_free : Option ℕ → Bool
is_free none = false
is_free (some price) = price == 0

abbrev apply_input : BundleInput → Bundle → Bundle
apply_input input b = record b {
  title = or_else input.title b.title;
  price_cents = or_else input.price_cents b.price_cents;
  status = or_else input.status b.status;
}

-- `if (input.courseIds !== undefined)`: the bundle's rows are deleted, and the new ones inserted.
unfoldable replace_courses : ℕ → Option (List ℕ) → Action Db (Unit {0})
unfolding insert_courses
replace_courses id none = pure tt
replace_courses id (some course_ids) = do
  modify
      (λ db. record db { bundle_courses = select (λ x. not (x.bundle_id == id)) db.bundle_courses })
  if is_empty course_ids then pure tt else insert_courses id course_ids

unfoldable pub update_bundle : Actor → ℕ → BundleInput → Action Db (Bundle × List Item)
unfolding replace_courses get_bundle
update_bundle user id input = do
  bundles ← gets (λ db. db.bundles)
  existing ← or_throw (first (by (λ (x : Bundle). x.id) id) bundles) not_found_error
  throw_if (not (owns user existing)) (forbidden_error forbidden)
  throw_if (is_free input.price_cents) (bad_request_error validation_error)
  modify (λ db. record db {
    bundles = update (by (λ (x : Bundle). x.id) id) (apply_input input) db.bundles;
  })
  replace_courses id input.course_ids
  get_bundle id

-- An update whose courses are not all in their table, of a bundle that is found and that the user
-- may change, with no price of 0 and at least one course: it throws, but its fields are written and the
-- bundle is left without any course.
pub update_bundle_unknown :
    (user : Actor) (id c : ℕ) (cs : List ℕ) (input : BundleInput) (b : Bundle) (db : Db)
    → first (by (λ (x : Bundle). x.id) id) db.bundles ≡ some b
    → owns user b ≡ true
    → is_free input.price_cents ≡ false
    → input.course_ids ≡ some (c ∷ cs)
    → all (is_course db.courses) (c ∷ cs) ≡ false
    → update_bundle user id input db
      ≡ throws other_error (record db {
        bundles = update (by (λ (x : Bundle). x.id) id) (apply_input input) db.bundles;
        bundle_courses = select (λ x. not (x.bundle_id == id)) db.bundle_courses;
      })
unfolding update_bundle
update_bundle_unknown user id c cs input b db found mine priced ids unknown =
    rw (found, update_bundle)
      (rw (mine, update_bundle)
        (rw (priced, update_bundle) (rw (ids, update_bundle) (rw (unknown, update_bundle) refl))))
