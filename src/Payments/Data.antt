-- ===== src/Payments/Data.antt =====
-- The tables of shared/db/schema/payments.ts and coupons.ts, as modules/payments/service.ts uses
-- them, with the columns of courses, users and enrolments that it reads. Identifiers, titles and
-- addresses are opaque numbers, times are milliseconds.
use package.ayo_snbt_backend.Common.Text.{Text}
use package.ayo_snbt_backend.Common.{
  ℕ, Bool, true, false, ◌&&◌, Option, List, [], ◌∷◌, ◌++◌, any, if◌then◌else◌, ◌==◌,
}

pub data OrderStatus : Type 0 where
  created pending paid fulfilled refunded expired : OrderStatus

-- The status of a course or a bundle.
pub data ItemStatus : Type 0 where
  draft published archived : ItemStatus

abbrev pub is_published : ItemStatus → Bool
is_published published = true
is_published draft = false
is_published archived = false

-- A coupon code, as its character codes.
pub record Order : Type 0 where
  pub id : ℕ
  pub user_id : ℕ
  pub order_number : ℕ
  pub amount_cents : ℕ
  pub status : OrderStatus
  pub provider : ℕ
  pub provider_reference : ℕ
  pub payment_url : ℕ
  pub course_id : Option ℕ
  pub bundle_id : Option ℕ
  pub paid_at : Option ℕ
  pub refunded_at : Option ℕ
  pub course_title : ℕ
  pub coupon_code : Option Text
  pub created_at : ℕ
  pub updated_at : ℕ

pub record PaymentEvent : Type 0 where
  pub event_id : ℕ
  pub order_id : ℕ
  pub provider : ℕ
  pub is_paid : Bool

pub record Coupon : Type 0 where
  pub id : ℕ
  pub code : Text
  pub percent_off : ℕ
  pub max_uses : Option ℕ
  pub uses_count : ℕ
  pub course_id : Option ℕ
  pub expires_at : Option ℕ

pub record Course : Type 0 where
  pub id : ℕ
  pub title : ℕ
  pub status : ItemStatus
  pub price_cents : ℕ

pub record Bundle : Type 0 where
  pub id : ℕ
  pub title : ℕ
  pub status : ItemStatus
  pub price_cents : ℕ
  pub created_by : Option ℕ

pub record BundleCourse : Type 0 where
  pub bundle_id : ℕ
  pub course_id : ℕ
  pub sort_order : ℕ

pub record User : Type 0 where
  pub id : ℕ
  pub email : ℕ
  pub name : ℕ

pub record Enrollment : Type 0 where
  pub user_id : ℕ
  pub course_id : ℕ

-- The jobs that the service asks the queues for; whether the queue takes a job is not modelled.
pub data Job : Type 0 where
  fulfill : ℕ → Job
  receipt : ℕ → ℕ → Job

pub record Db : Type 0 where
  pub orders : List Order
  pub payment_events : List PaymentEvent
  pub coupons : List Coupon
  pub courses : List Course
  pub bundles : List Bundle
  pub bundle_courses : List BundleCourse
  pub users : List User
  pub enrollments : List Enrollment
  pub jobs : List Job
  -- The orders for which `order.fulfilled` was emitted.
  pub fulfilled_events : List ℕ

abbrev pub is_enrollment : ℕ → ℕ → Enrollment → Bool
is_enrollment user course e = (e.user_id == user) && (e.course_id == course)

-- `insert(courseEnrollments).values({ userId, courseId }).onConflictDoNothing()`.
unfoldable pub enroll : ℕ → ℕ → List Enrollment → List Enrollment
enroll user course es =
    if any (is_enrollment user course) es
    then es
    else es ++ record { user_id = user; course_id = course } ∷ []
