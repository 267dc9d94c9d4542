-- ===== src/Payments/Requests.antt =====
-- How often fulfilment is asked for.
use package.ayo_snbt_backend.Common.Text.{Text}
use package.ayo_snbt_backend.Common.{
  ℕ, ◌≡◌, ◌+◌, refl, ap, ◌⊎◌, inl, inr, true, false, Option, none, some, List, [], ◌∷◌, ◌++◌, arith,
  first, any, ◌==◌, if◌then◌else◌, Bool-cases, Option-cases, ◌∙◌, ◌≤◌,
}
use package.ayo_snbt_backend.Common.Action.{after, after-and_then}
use package.ayo_snbt_backend.Common.Keys.{by, Distinct, first-by_key, first-by-update}
use package.ayo_snbt_backend.Payments.Data.{
  OrderStatus, PaymentEvent, Order, User, Db, Job, fulfill, receipt,
}
use package.ayo_snbt_backend.Payments.Coupons.{
  AppliedCoupon, apply_coupon, create_coupon, CouponInput, insert_coupon,
}
use package.ayo_snbt_backend.Payments.Orders.{
  OrderInput, CreatePayment, NewOrder, Priced, free, priced, price, insert_order, place, place_paid,
  place_order, create_order, get_order, is_paid, fulfill_order, refund_order, receipts,
}
use package.ayo_snbt_backend.Payments.Webhook.{
  Verified, is_advanced, process, handle_webhook, mark_paid, set_paid, deliver,
}
use package.ayo_snbt_backend.Payments.Moves.{
  order_id, order_at, ◌⟶◌, ◌⟶◌, pay, pay_created, pay_expired, fulfil, refund, refund_fulfilled,
  expire, Change-Moves, Change-Distinct, Change, Moves,
}
use package.ayo_snbt_backend.Payments.Status.{AllFresh}
use package.ayo_snbt_backend.Payments.Calls.{step-Change}
use package.ayo_snbt_backend.Payments.Step.{
  Call, creates_order, gets_order, delivers, fulfills, refunds, creates_coupon, step, run,
}

-- The fulfilments that were asked for, for one order.
abbrev pub requests : ℕ → List Job → ℕ
requests i [] = 0
requests i (fulfill j ∷ js) = (if j == i then 1 else 0) + requests i js
requests i (receipt u j ∷ js) = requests i js

requests-append : (i : ℕ) (xs ys : List Job) → requests i (xs ++ ys) ≡ requests i xs + requests i ys
requests-append i [] ys = omega arith
requests-append i (fulfill j ∷ xs) ys = omega (arith, requests-append i xs ys)
requests-append i (receipt u j ∷ xs) ys = omega (arith, requests-append i xs ys)

-- One fulfilment for an order that was paid, none for any other.
abbrev pub budget : Option Order → ℕ
budget none = 0
budget (some o) = if is_advanced o.status then 1 else 0

advance : (s t : OrderStatus) → (t ≡ s) ⊎ (s ⟶ t) → is_advanced s ≡ true → is_advanced t ≡ true
advance s t (inl e) h = rw e h
advance s t (inr pay) h = cc
advance s t (inr pay_created) h = cc
advance s t (inr pay_expired) h = cc
advance s t (inr fulfil) h = refl
advance s t (inr refund) h = refl
advance s t (inr refund_fulfilled) h = refl
advance s t (inr expire) h = cc

budget-Moves : (a b : Option Order) → Moves a b → budget a ≤ budget b
budget-Moves none b m = omega arith
budget-Moves (some o) none m = absurd m
budget-Moves (some o) (some o') m = ground (arith, advance o.status o'.status m.edge)

apply_coupon-jobs :
    (code : Option Text) (target : Option ℕ) (now : ℕ) (db : Db)
    → (after (apply_coupon code target now db)).jobs ≡ db.jobs
unfolding apply_coupon
apply_coupon-jobs none target now db = refl
apply_coupon-jobs (some []) target now db = refl
apply_coupon-jobs (some (c ∷ code)) target now db = ground arith

price-jobs :
    (user : ℕ) (input : OrderInput) (db : Db) → (after (price user input db)).jobs ≡ db.jobs
unfolding price
price-jobs user input db = ground arith

module _ (provider : ℕ) (create_payment : CreatePayment) where
  place_paid-jobs :
      (fresh : NewOrder) (user : ℕ) (input : OrderInput) (title base : ℕ) (bundle : Option ℕ)
      (used : AppliedCoupon) (db : Db)
      → (after (place_paid provider create_payment fresh user input title base bundle used db)).jobs
        ≡ db.jobs
  unfolding place_paid insert_order
  place_paid-jobs fresh user input title base bundle used db = ground arith

  place-jobs :
      (fresh : NewOrder) (user : ℕ) (input : OrderInput) (target : Priced) (db : Db)
      → (after (place provider create_payment fresh user input target db)).jobs ≡ db.jobs
  unfolding place place_order
  place-jobs fresh user input free db = refl
  place-jobs fresh user input (priced title base bundle) db =
      after-and_then (λ s. s.jobs ≡ db.jobs) (λ s. s.jobs ≡ db.jobs)
        (apply_coupon input.coupon_code input.course_id fresh.now db)
        (place_paid provider create_payment fresh user input title base bundle)
        (apply_coupon-jobs input.coupon_code input.course_id fresh.now db) (λ s e. e)
        (λ used s e. place_paid-jobs fresh user input title base bundle used s ∙ e)

  create_order-jobs :
      (fresh : NewOrder) (user : ℕ) (input : OrderInput) (db : Db)
      → (after (create_order provider create_payment fresh user input db)).jobs ≡ db.jobs
  unfolding create_order
  create_order-jobs fresh user input db =
      after-and_then (λ s. s.jobs ≡ db.jobs) (λ s. s.jobs ≡ db.jobs) (price user input db)
        (place provider create_payment fresh user input) (price-jobs user input db) (λ s e. e)
        (λ target s e. place-jobs fresh user input target s ∙ e)

requests-receipts : (i : ℕ) (u : Option User) (o : Order) → requests i (receipts u o) ≡ 0
requests-receipts i none o = refl
requests-receipts i (some u) o = refl

fulfill_order-requests :
    (order now : ℕ) (db : Db) (i : ℕ)
    → requests i (after (fulfill_order order now db)).jobs ≡ requests i db.jobs
unfolding fulfill_order
fulfill_order-requests order now db i = elim (Option-cases (first (by order_id order) db.orders)) [
  | inl e ↦ rw (e, fulfill_order) refl
  | inr (o, e) ↦ elim (Bool-cases (is_paid o.status)) [
    | inl s ↦
        rw (e, fulfill_order)
          (rw (s, fulfill_order)
            (rw (requests-append i db.jobs _, requests-receipts i _ o) (omega arith)))
    | inr s ↦ rw (e, fulfill_order) (rw (s, fulfill_order) refl)
  ]
]

-- The step rule: what a call asks for is covered by what it does to the order.
abbrev Covers : Db → Db → ℕ → Type 0
Covers db db' i =
    requests i db'.jobs + budget (order_at db i) ≤ requests i db.jobs + budget (order_at db' i)

pay-Covers :
    (o : Order) (now : ℕ) (db : Db) (i : ℕ)
    → first (by order_id o.id) db.orders ≡ some o
    → is_advanced o.status ≡ false
    → Covers db (mark_paid o now db) i
unfolding mark_paid
pay-Covers o now db i e s =
    rw
      (
        first-by-update order_id o.id i (set_paid now) db.orders (λ x. refl),
        requests-append i db.jobs (fulfill o.id ∷ []),
      )
      (elim (Bool-cases (i == o.id)) [
        | inl t ↦ let p : i ≡ o.id = ground arith in rw (p, e) (ground arith)
        | inr t ↦ ground arith
      ])

keeps-Covers :
    (db db' : Db) (i : ℕ)
    → requests i db'.jobs ≡ requests i db.jobs
    → Change db.orders db'.orders
    → Covers db db' i
keeps-Covers db db' i e c =
    omega (arith, budget-Moves (order_at db i) (order_at db' i) (Change-Moves _ _ i c))

process-Covers :
    (provider : ℕ) (v : Verified) (o : Order) (now : ℕ) (db : Db) (i : ℕ)
    → first (by order_id o.id) db.orders ≡ some o
    → Covers db (after (process provider v o now db)) i
unfolding process
process-Covers provider v o now db i e =
    elim (Bool-cases (any (by (λ (x : PaymentEvent). x.event_id) v.event_id) db.payment_events)) [
      | inl t ↦ rw (t, process) (omega arith)
      | inr t ↦ elim (Bool-cases v.is_paid) [
        | inr p ↦ rw (t, process) (rw (p, process) (omega arith))
        | inl p ↦ elim (Bool-cases (is_advanced o.status)) [
          | inl s ↦ rw (t, process) (rw (p, process) (rw (s, process) (omega arith)))
          | inr s ↦
              rw (t, process)
                (rw (p, process) (rw (s, process) (pay-Covers o now (logged db) i e s)))
        ]
      ]
    ]
  where
    logged : Db → Db
    logged d = record d {
      payment_events =
          d.payment_events
          ++ record {
            event_id = v.event_id;
            order_id = o.id;
            provider = provider;
            is_paid = v.is_paid;
          }
            ∷ [];
    }

handle_webhook-Covers :
    (provider : ℕ) (v : Option Verified) (now : ℕ) (db : Db) (i : ℕ)
    → Distinct order_id db.orders
    → Covers db (after (handle_webhook provider (λ v. v) v now db)) i
unfolding handle_webhook
handle_webhook-Covers provider none now db i d = omega arith
handle_webhook-Covers provider (some v) now db i d =
    elim (Option-cases (first (by (λ (x : Order). x.order_number) v.order_number) db.orders)) [
      | inl e ↦ rw (e, deliver) (omega arith)
      | inr (o, e) ↦
          rw (e, deliver)
            (elim (Bool-cases
              (any (by (λ (x : PaymentEvent). x.event_id) v.event_id) db.payment_events)) [
                | inl t ↦ rw t (omega arith)
                | inr t ↦
                    rw t (
                      process-Covers provider v o now db i
                        (first-by_key order_id _ db.orders o d e))
              ])
    ]

create_coupon-jobs :
    (id : ℕ) (input : CouponInput) (db : Db) → (after (create_coupon id input db)).jobs ≡ db.jobs
unfolding create_coupon insert_coupon
create_coupon-jobs id input db = ground arith

get_order-jobs :
    (user order now : ℕ) (db : Db) → (after (get_order user order now db)).jobs ≡ db.jobs
unfolding get_order
get_order-jobs user order now db = ground arith

refund_order-jobs : (order now : ℕ) (db : Db) → (after (refund_order order now db)).jobs ≡ db.jobs
unfolding refund_order
refund_order-jobs order now db = ground arith

module _ (provider : ℕ) (create_payment : CreatePayment) where
  step-Covers :
      (db : Db) (c : Call) (i : ℕ)
      → Distinct order_id db.orders
      → Change db.orders (step provider create_payment db c).orders
      → Covers db (step provider create_payment db c) i
  unfolding step
  step-Covers db (creates_order fresh user input) i d change =
      keeps-Covers db (after (create_order provider create_payment fresh user input db)) i
        (ap (requests i) (create_order-jobs provider create_payment fresh user input db)) change
  step-Covers db (gets_order user order now) i d change =
      keeps-Covers db (after (get_order user order now db)) i
        (ap (requests i) (get_order-jobs user order now db)) change
  step-Covers db (delivers v now) i d change = handle_webhook-Covers provider v now db i d
  step-Covers db (fulfills order now) i d change =
      keeps-Covers db (after (fulfill_order order now db)) i (fulfill_order-requests order now db i)
        change
  step-Covers db (refunds order now) i d change =
      keeps-Covers db (after (refund_order order now db)) i
        (ap (requests i) (refund_order-jobs order now db)) change
  step-Covers db (creates_coupon id input) i d change =
      keeps-Covers db (after (create_coupon id input db)) i
        (ap (requests i) (create_coupon-jobs id input db)) change

  -- Where no order has been asked to be fulfilled more often than its budget (once if it is paid,
  -- fulfilled or refunded, otherwise never), the same holds after any calls: webhooks that are
  -- repeated, reordered or late never ask for a second fulfilment, and no unpaid order gets one.
  pub run-requests-le-budget :
      (db : Db) (cs : List Call) (i : ℕ)
      → Distinct order_id db.orders
      → AllFresh provider create_payment db cs
      → requests i db.jobs ≤ budget (order_at db i)
      → requests i (run provider create_payment db cs).jobs
        ≤ budget (order_at (run provider create_payment db cs) i)
  unfolding run
  run-requests-le-budget db [] i d new h = h
  run-requests-le-budget db (c ∷ cs) i d new h =
      let change = step-Change provider create_payment db c d new.0 in
      run-requests-le-budget (step provider create_payment db c) cs i (Change-Distinct _ _ change d)
        new.1 (omega (arith, step-Covers db c i d change))
