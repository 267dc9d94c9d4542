-- ===== src/Payments/Orders.antt =====
-- `createOrder`, `getOrder`, `fulfillOrder` and `refundOrder` of modules/payments/service.ts. The
-- new row's id and order number and the clock are arguments; an order number that is taken breaks
-- the unique index.
use package.ayo_snbt_backend.Common.Text.{Text}
use package.ayo_snbt_backend.Common.{
  ℕ, ◌+◌, Bool, true, false, not, ◌&&◌, Option, none, some, List, [], ◌∷◌, ◌++◌, ltb, leb, ◌==◌,
  if◌then◌else◌, first, select, update, any,
}
use package.ayo_snbt_backend.Common.Action.{
  Action, pure, throw, throw_if, or_throw, gets, modify, ◌>>=◌, ◌>>◌, bad_request_error,
  not_found_error, other_error, validation_error, bad_request,
}
use package.ayo_snbt_backend.Common.Keys.{by}
use package.ayo_snbt_backend.Payments.Data.{
  OrderStatus, pending, paid, fulfilled, refunded, expired, is_published, Order, Course, Bundle,
  BundleCourse, User, Enrollment, Job, receipt, Db, enroll,
}
use package.ayo_snbt_backend.Payments.Coupons.{
  AppliedCoupon, no_coupon, applied, percent_of, apply_coupon, discounted,
}

pub record OrderInput : Type 0 where
  pub course_id : Option ℕ
  pub bundle_id : Option ℕ
  pub coupon_code : Option Text

-- What the provider answers, and the provider: `none` where it fails after its retries.
pub record CreatePaymentResult : Type 0 where
  pub provider_reference : ℕ
  pub payment_url : ℕ

pub record PaymentRequest : Type 0 where
  pub order_number : ℕ
  pub amount_cents : ℕ
  pub email : ℕ
  pub course_title : ℕ

abbrev pub CreatePayment : Type 0
CreatePayment = PaymentRequest → Option CreatePaymentResult

-- What is to be paid: nothing for a free course, or a title with a price, and the bundle.
pub data Priced : Type 0 where
  free : Priced
  priced : ℕ → ℕ → Option ℕ → Priced

unfoldable pub price_course : ℕ → ℕ → Action Db Priced
price_course user_id course_id = do
  courses ← gets (λ db. db.courses)
  c ← or_throw (first (by (λ (x : Course). x.id) course_id) courses) not_found_error
  throw_if (not (is_published c.status)) (bad_request_error bad_request)
  if leb c.price_cents 0
      then (do
        modify (λ db. record db { enrollments = enroll user_id course_id db.enrollments })
        pure free)
      else pure (priced c.title c.price_cents none)

unfoldable pub price_bundle : ℕ → Action Db Priced
price_bundle bundle_id = do
  bundles ← gets (λ db. db.bundles)
  b ←
      or_throw
        (first (λ (x : Bundle). by (λ (y : Bundle). y.id) bundle_id x && is_published x.status)
          bundles)
        not_found_error
  pure (priced b.title b.price_cents (some bundle_id))

price_target : ℕ → Option ℕ → Option ℕ → Action Db Priced
unfolding price_course price_bundle
price_target user_id none none = throw (bad_request_error validation_error)
price_target user_id (some c) (some b) = throw (bad_request_error validation_error)
price_target user_id (some c) none = price_course user_id c
price_target user_id none (some b) = price_bundle b

-- The two checks at the top of `createOrder`, and the price of what was asked for.
unfoldable pub price : ℕ → OrderInput → Action Db Priced
unfolding price_target
price user_id input = price_target user_id input.course_id input.bundle_id

unfoldable pub code_of : AppliedCoupon → Option Text
code_of no_coupon = none
code_of (applied code percent) = some code

-- The identity of the new row, and the time.
pub record NewOrder : Type 0 where
  pub id : ℕ
  pub order_number : ℕ
  pub now : ℕ

pub data CreateResult : Type 0 where
  enrolled : CreateResult
  ordered : Order → CreateResult

-- `insert(orders)`.
unfoldable pub insert_order : Order → Action Db CreateResult
insert_order order = do
  taken ← gets (λ db. any (by (λ (o : Order). o.order_number) order.order_number) db.orders)
  throw_if taken other_error
  modify (λ db. record db { orders = db.orders ++ order ∷ [] })
  pure (ordered order)

module _ (provider : ℕ) (create_payment : CreatePayment) where
  unfoldable pub new_order :
      NewOrder → ℕ → OrderInput → ℕ → Option ℕ → ℕ → AppliedCoupon → CreatePaymentResult → Order
  unfolding code_of
  new_order fresh user_id input title bundle amount used payment = record {
    id = fresh.id;
    user_id = user_id;
    order_number = fresh.order_number;
    amount_cents = amount;
    status = pending;
    provider = provider;
    provider_reference = payment.provider_reference;
    payment_url = payment.payment_url;
    course_id = input.course_id;
    bundle_id = bundle;
    paid_at = none;
    refunded_at = none;
    course_title = title;
    coupon_code = code_of used;
    created_at = fresh.now;
    updated_at = fresh.now;
  }

  -- From the user's row on.
  unfoldable pub place_paid :
      NewOrder → ℕ → OrderInput → ℕ → ℕ → Option ℕ → AppliedCoupon → Action Db CreateResult
  unfolding discounted percent_of new_order
  place_paid fresh user_id input title base bundle used = do
    let amount = discounted base (percent_of used)
    users ← gets (λ db. db.users)
    user ← or_throw (first (by (λ (x : User). x.id) user_id) users) not_found_error
    payment ←
        or_throw
          (create_payment (record {
            order_number = fresh.order_number;
            amount_cents = amount;
            email = user.email;
            course_title = title;
          }))
          other_error
    insert_order (new_order fresh user_id input title bundle amount used payment)

  -- From the coupon on.
  unfoldable pub place_order : NewOrder → ℕ → OrderInput → ℕ → ℕ → Option ℕ → Action Db CreateResult
  place_order fresh user_id input title base bundle = do
    used ← apply_coupon input.coupon_code input.course_id fresh.now
    place_paid fresh user_id input title base bundle used

  unfoldable pub place : NewOrder → ℕ → OrderInput → Priced → Action Db CreateResult
  place fresh user_id input free = pure enrolled
  place fresh user_id input (priced title base bundle) =
      place_order fresh user_id input title base bundle

  unfoldable pub create_order : NewOrder → ℕ → OrderInput → Action Db CreateResult
  create_order fresh user_id input = do
    target ← price user_id input
    place fresh user_id input target

-- 24 * 3600_000.
abbrev pub order_expiry_ms : ℕ
order_expiry_ms = 86_400_000

abbrev pub is_pending : OrderStatus → Bool
is_pending pending = true
is_pending _ = false

abbrev pub set_status : OrderStatus → ℕ → Order → Order
set_status s now o = record o { status = s; updated_at = now }

-- `Date.now() - createdAt > ORDER_EXPIRY_MS`.
unfoldable pub is_stale : Order → ℕ → Bool
is_stale o now = is_pending o.status && ltb (o.created_at + order_expiry_ms) now

-- The order that is returned has the new status; its `updatedAt` is the one that was read.
unfoldable pub get_order : ℕ → ℕ → ℕ → Action Db Order
unfolding is_stale
get_order user_id order_id now = do
  orders ← gets (λ db. db.orders)
  order ←
      or_throw (first (λ o. by (λ (x : Order). x.id) order_id o && (o.user_id == user_id)) orders)
        not_found_error
  if is_stale order now
      then (do
        modify (λ db. record db {
          orders = update (by (λ (x : Order). x.id) order_id) (set_status expired now) db.orders;
        })
        pure (record order { status = expired }))
      else pure order

abbrev pub is_paid : OrderStatus → Bool
is_paid paid = true
is_paid _ = false

unfoldable pub enroll_option : ℕ → Option ℕ → List Enrollment → List Enrollment
enroll_option user none es = es
enroll_option user (some c) es = enroll user c es

-- The loop over the rows of a bundle.
unfoldable pub enroll_all : ℕ → List BundleCourse → List Enrollment → List Enrollment
enroll_all user [] es = es
enroll_all user (b ∷ bs) es = enroll_all user bs (enroll user b.course_id es)

abbrev pub courses_of : Option ℕ → List BundleCourse → List BundleCourse
courses_of none rows = []
courses_of (some b) rows = select (λ r. r.bundle_id == b) rows

-- The enrolments that fulfilling an order adds.
unfoldable pub enroll_order : Order → Db → List Enrollment
unfolding enroll_option enroll_all
enroll_order o db =
    enroll_all o.user_id (courses_of o.bundle_id db.bundle_courses)
      (enroll_option o.user_id o.course_id db.enrollments)

abbrev pub receipts : Option User → Order → List Job
receipts none o = []
receipts (some u) o = receipt u.email o.id ∷ []

unfoldable pub fulfill_found : Option Order → ℕ → Db → Db
unfolding enroll_order
fulfill_found none now db = db
fulfill_found (some o) now db =
    if is_paid o.status
    then record db {
      enrollments = enroll_order o db;
      jobs = db.jobs ++ receipts (first (by (λ (u : User). u.id) o.user_id) db.users) o;
      orders = update (by (λ (x : Order). x.id) o.id) (set_status fulfilled now) db.orders;
      fulfilled_events = db.fulfilled_events ++ o.id ∷ [];
    }
    else db

unfoldable pub fulfill_order : ℕ → ℕ → Action Db (Unit {0})
unfolding fulfill_found
fulfill_order order_id now =
    modify λ db. fulfill_found (first (by (λ (x : Order). x.id) order_id) db.orders) now db

abbrev pub is_refundable : OrderStatus → Bool
is_refundable paid = true
is_refundable fulfilled = true
is_refundable _ = false

unfoldable pub refund_order : ℕ → ℕ → Action Db (Unit {0})
refund_order order_id now = do
  orders ← gets (λ db. db.orders)
  o ← or_throw (first (by (λ (x : Order). x.id) order_id) orders) not_found_error
  throw_if (not (is_refundable o.status)) (bad_request_error bad_request)
  modify (λ db. record db {
    orders =
        update (by (λ (x : Order). x.id) order_id)
          (λ o. record o { status = refunded; refunded_at = some now; updated_at = now }) db.orders;
  })
