-- ===== src/Payments/Amounts.antt =====
-- What an order costs and what fulfilment gives.
use package.ayo_snbt_backend.Common.Action.{after}
use package.ayo_snbt_backend.Common.Keys.{by}
use package.ayo_snbt_backend.Common.{
  subst, ℕ, ◌+◌, ◌-◌, ◌*◌, ◌≤◌, ◌<◌, ◌≡◌, arith, true, Option, none, some, List, [], ◌∷◌, any,
  any-append, All, first,
}
use package.ayo_snbt_backend.Payments.Data.{
  Enrollment, is_enrollment, enroll, BundleCourse, Order, Db,
}
use package.ayo_snbt_backend.Payments.Coupons.{discounted}
use package.ayo_snbt_backend.Payments.Orders.{
  enroll_option, enroll_all, enroll_order, courses_of, fulfill_order, is_paid,
}

-- A percentage up to 100 never raises the price, and the amount is the exact discounted price
-- rounded to the nearest cent, halves up.
pub discounted_bounds :
    (base percent : ℕ)
    → percent ≤ 100
    → (discounted base percent ≤ base)
      × (200 * discounted base percent ≤ 2 * (base * (100 - percent)) + 100)
      × (2 * (base * (100 - percent)) < 200 * discounted base percent + 100)
unfolding discounted
discounted_bounds base percent h = grind arith

abbrev pub IsEnrolled : ℕ → ℕ → List Enrollment → Type 0
IsEnrolled user course es = any (is_enrollment user course) es ≡ true

enroll-IsEnrolled :
    (user course : ℕ) (es : List Enrollment) → IsEnrolled user course (enroll user course es)
unfolding enroll
enroll-IsEnrolled user course es = ground (
  arith,
  any-append (is_enrollment user course) es (record { user_id = user; course_id = course } ∷ []),
)

enroll_keeps :
    (user course u c : ℕ) (es : List Enrollment)
    → IsEnrolled u c es
    → IsEnrolled u c (enroll user course es)
unfolding enroll
enroll_keeps user course u c es h =
    ground (
      arith,
      any-append (is_enrollment u c) es (record { user_id = user; course_id = course } ∷ []),
    )

enroll_all_keeps :
    (user u c : ℕ) (bs : List BundleCourse) (es : List Enrollment)
    → IsEnrolled u c es
    → IsEnrolled u c (enroll_all user bs es)
unfolding enroll_all
enroll_all_keeps user u c [] es h = h
enroll_all_keeps user u c (b ∷ bs) es h =
    enroll_all_keeps user u c bs (enroll user b.course_id es)
      (enroll_keeps user b.course_id u c es h)

enroll_all-IsEnrolled :
    (user : ℕ) (bs : List BundleCourse) (es : List Enrollment)
    → All (λ b. IsEnrolled user b.course_id (enroll_all user bs es)) bs
unfolding enroll_all
enroll_all-IsEnrolled user [] es = tt
enroll_all-IsEnrolled user (b ∷ bs) es = (
  enroll_all_keeps user user b.course_id bs (enroll user b.course_id es)
      (enroll-IsEnrolled user b.course_id es),
  enroll_all-IsEnrolled user bs (enroll user b.course_id es),
)

option_keeps :
    (user u c : ℕ) (o : Option ℕ) (es : List Enrollment)
    → IsEnrolled u c es
    → IsEnrolled u c (enroll_option user o es)
unfolding enroll_option
option_keeps user u c none es h = h
option_keeps user u c (some d) es h = enroll_keeps user d u c es h

option-IsEnrolled :
    (user c : ℕ) (o : Option ℕ) (es : List Enrollment)
    → o ≡ some c
    → IsEnrolled user c (enroll_option user o es)
unfolding enroll_option
option-IsEnrolled user c none es e = cc
option-IsEnrolled user c (some d) es e =
    let p : d ≡ c = cc in
    subst (λ k. IsEnrolled user k (enroll user d es)) p (enroll-IsEnrolled user d es)

enroll_order_lem :
    (o : Order) (db : Db)
    → ((c : ℕ) → o.course_id ≡ some c → IsEnrolled o.user_id c (enroll_order o db))
      × All
          (λ b. IsEnrolled o.user_id b.course_id (enroll_order o db))
          (courses_of o.bundle_id db.bundle_courses)
      × ((u c : ℕ) → IsEnrolled u c db.enrollments → IsEnrolled u c (enroll_order o db))
unfolding enroll_order
enroll_order_lem o db = (
  λ c e.
      enroll_all_keeps o.user_id o.user_id c (courses_of o.bundle_id db.bundle_courses)
        (enroll_option o.user_id o.course_id db.enrollments)
        (option-IsEnrolled o.user_id c o.course_id db.enrollments e),
  enroll_all-IsEnrolled o.user_id (courses_of o.bundle_id db.bundle_courses)
      (enroll_option o.user_id o.course_id db.enrollments),
  λ u c h.
      enroll_all_keeps o.user_id u c (courses_of o.bundle_id db.bundle_courses)
        (enroll_option o.user_id o.course_id db.enrollments)
        (option_keeps o.user_id u c o.course_id db.enrollments h),
)

-- `fulfill_order` on the id of an order that is found paid leaves enrolments that hold its user's in its
-- course, if it has one, and in every course of its bundle, and every enrolment there was before.
pub fulfill_order_lem :
    (id now : ℕ) (o : Order) (db : Db)
    → first (by (λ (x : Order). x.id) id) db.orders ≡ some o
    → is_paid o.status ≡ true
    → ((c : ℕ)
        → o.course_id ≡ some c
        → IsEnrolled o.user_id c (after (fulfill_order id now db)).enrollments)
      × All
          (λ b. IsEnrolled o.user_id b.course_id (after (fulfill_order id now db)).enrollments)
          (courses_of o.bundle_id db.bundle_courses)
      × ((u c : ℕ)
          → IsEnrolled u c db.enrollments
          → IsEnrolled u c (after (fulfill_order id now db)).enrollments)
unfolding fulfill_order
fulfill_order_lem id now o db h p =
    rw (h, fulfill_order) (rw (p, fulfill_order) (enroll_order_lem o db))
