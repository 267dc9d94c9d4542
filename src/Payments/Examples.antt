-- ===== src/Payments/Examples.antt =====
-- The theorems about payments at a small shop.
use package.ayo_snbt_backend.Common.Text.{Text}
use package.ayo_snbt_backend.Common.{
  ℕ, ◌≤◌, ◌<◌, ◌*◌, ◌+◌, ◌-◌, ◌≡◌, refl, ◌⊎◌, true, false, none, some, List, [], ◌∷◌, arith, All,
  ◌++◌,
}
use package.ayo_snbt_backend.Common.Action.{returns, throws, after, bad_request_error, bad_request}
use package.ayo_snbt_backend.Payments.Bundles.{create_bundle}
use package.ayo_snbt_backend.Payments.Data.{
  Order, pending, paid, refunded, published, Coupon, Db, OrderStatus,
}
use package.ayo_snbt_backend.Payments.CouponCode.{normalize}
use package.ayo_snbt_backend.Payments.Coupons.{discounted}
use package.ayo_snbt_backend.Payments.Orders.{
  CreatePayment, OrderInput, NewOrder, refund_order, fulfill_order, courses_of,
}
use package.ayo_snbt_backend.Payments.Webhook.{Verified, WebhookResult, handle_webhook}
use package.ayo_snbt_backend.Payments.Step.{Call, creates_order, delivers, fulfills, run}
use package.ayo_snbt_backend.Payments.Moves.{order_at}
use package.ayo_snbt_backend.Payments.Status.{Reaches, AllFresh, run-Reaches}
use package.ayo_snbt_backend.Payments.Requests.{requests, budget, run-requests-le-budget}
use package.ayo_snbt_backend.Payments.CouponLimit.{CouponInv, run-CouponInv}
use package.ayo_snbt_backend.Payments.Effects.{
  handle_webhook_replay, fulfill_order_twice, refund_order_twice, set_refunded,
}
use package.ayo_snbt_backend.Payments.Amounts.{discounted_bounds, IsEnrolled, fulfill_order_lem}

abbrev first_order : Order
first_order = record {
  id = 1;
  user_id = 7;
  order_number = 100;
  amount_cents = 900;
  status = pending;
  provider = 0;
  provider_reference = 0;
  payment_url = 0;
  course_id = some 1;
  bundle_id = some 5;
  paid_at = none;
  refunded_at = none;
  course_title = 11;
  coupon_code = none;
  created_at = 0;
  updated_at = 0;
}

-- "ABC".
abbrev abc : Text
abc = 65 ∷ 66 ∷ 67 ∷ []

abbrev ten_off : Coupon
ten_off = record {
  id = 3;
  code = abc;
  percent_off = 10;
  max_uses = some 1;
  uses_count = 0;
  course_id = none;
  expires_at = none;
}

abbrev shop : Db
shop = record {
  orders = first_order ∷ [];
  payment_events = [];
  coupons = ten_off ∷ [];
  courses = record { id = 1; title = 11; status = published; price_cents = 1_000 } ∷ [];
  bundles = [];
  bundle_courses = record { bundle_id = 5; course_id = 2; sort_order = 0 } ∷ [];
  users = record { id = 7; email = 70; name = 71 } ∷ [];
  enrollments = [];
  jobs = [];
  fulfilled_events = [];
}

abbrev pays : CreatePayment
pays request = some (record { provider_reference = request.order_number; payment_url = 1 })

abbrev wants_course : OrderInput
wants_course = record { course_id = some 1; bundle_id = none; coupon_code = some abc }

abbrev second : NewOrder
second = record { id = 2; order_number = 200; now = 50 }

abbrev paid_event : Verified
paid_event = record { order_number = 100; is_paid = true; event_id = 9 }

abbrev calls : List Call
calls =
    creates_order second 7 wants_course
    ∷ delivers (some paid_event) 60
    ∷ delivers (some paid_event) 61
    ∷ fulfills 1 70
    ∷ []

calls_fresh : AllFresh 0 pays shop calls
calls_fresh = (refl, (tt, (tt, (tt, tt))))

run-Reaches_example : Reaches (order_at shop 1) (order_at (run 0 pays shop calls) 1)
run-Reaches_example = run-Reaches 0 pays shop calls 1 (refl, tt) calls_fresh

abbrev refunded_shop : Db
refunded_shop = record shop { orders = record first_order { status = refunded } ∷ [] }

abbrev late_calls : List Call
late_calls = delivers (some paid_event) 60 ∷ fulfills 1 70 ∷ []

run-requests-le-budget_example :
    requests 1 (run 0 pays shop calls).jobs ≤ budget (order_at (run 0 pays shop calls) 1)
run-requests-le-budget_example =
    run-requests-le-budget 0 pays shop calls 1 (refl, tt) calls_fresh (omega arith)

run-CouponInv_example : CouponInv (run 0 pays shop calls).coupons
run-CouponInv_example = run-CouponInv 0 pays shop calls calls_fresh ((refl, tt), (omega arith, tt))

handle_webhook_replay_example :
    (r' : WebhookResult) × (handle_webhook 0
        (λ v. some v)
        paid_event
        61
        (after (handle_webhook 0 (λ v. some v) paid_event 60 shop))
      ≡ returns r' (after (handle_webhook 0 (λ v. some v) paid_event 60 shop)))
    × (r'.processed ≡ false)
unfolding handle_webhook
handle_webhook_replay_example =
    handle_webhook_replay 0 (λ v. some v) paid_event 60 61 shop
      (after (handle_webhook 0 (λ v. some v) paid_event 60 shop))
      (record { processed = true; order_id = 1; status = paid }) refl

abbrev paid_shop : Db
paid_shop = record shop { orders = record first_order { status = paid } ∷ [] }

fulfill_order_twice_example :
    after (fulfill_order 1 80 (after (fulfill_order 1 70 paid_shop)))
    ≡ after (fulfill_order 1 70 paid_shop)
fulfill_order_twice_example = fulfill_order_twice 1 70 80 paid_shop

refund_order_twice_example :
    ((o : Order) × (order_at paid_shop 1 ≡ some o)
      × ((o.status ≡ paid) ⊎ (o.status ≡ OrderStatus.fulfilled))
      × (order_at (after (refund_order 1 70 paid_shop)) 1 ≡ some (set_refunded 70 o)))
    × (refund_order 1 80 (after (refund_order 1 70 paid_shop))
        ≡ throws (bad_request_error bad_request) (after (refund_order 1 70 paid_shop)))
unfolding refund_order
refund_order_twice_example =
    refund_order_twice 1 70 80 paid_shop (after (refund_order 1 70 paid_shop)) refl

discounted_bounds_example :
    (discounted 999 33 ≤ 999)
    × (200 * discounted 999 33 ≤ 2 * (999 * (100 - 33)) + 100)
    × (2 * (999 * (100 - 33)) < 200 * discounted 999 33 + 100)
discounted_bounds_example = discounted_bounds 999 33 (omega arith)

fulfill_order_lem_example :
    ((c : ℕ) → some 1 ≡ some c → IsEnrolled 7 c (after (fulfill_order 1 70 paid_shop)).enrollments)
    × All
        (λ b. IsEnrolled 7 b.course_id (after (fulfill_order 1 70 paid_shop)).enrollments)
        (courses_of (some 5) shop.bundle_courses)
    × ((u c : ℕ)
        → IsEnrolled u c []
        → IsEnrolled u c (after (fulfill_order 1 70 paid_shop)).enrollments)
fulfill_order_lem_example =
    fulfill_order_lem 1 70 (record first_order { status = paid }) paid_shop refl refl

-- " abc" and "ABC" name one coupon.
normalize_spelling : normalize (32 ∷ 97 ∷ 98 ∷ 99 ∷ []) ≡ abc
unfolding normalize
normalize_spelling = refl

-- A course that is named twice is in a new bundle once.
created_bundle :
    (after (
      create_bundle 6 7
        (record { title = some 3; price_cents = 50; course_ids = 1 ∷ 1 ∷ [] })
        shop)).bundle_courses
    ≡ shop.bundle_courses ++ record { bundle_id = 6; course_id = 1; sort_order = 0 } ∷ []
unfolding create_bundle
created_bundle = refl

-- An unknown course leaves the bundle's row without any.
created_bundle_unknown :
    (after (
      create_bundle 6 7
        (record { title = some 3; price_cents = 50; course_ids = 1 ∷ 9 ∷ [] })
        shop)).bundle_courses
    ≡ shop.bundle_courses
unfolding create_bundle
created_bundle_unknown = refl
