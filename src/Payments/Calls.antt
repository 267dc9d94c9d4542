-- ===== src/Payments/Calls.antt =====
-- What each call does to the table of orders.
use package.ayo_snbt_backend.Common.{
  ℕ, ◌≡◌, refl, sym, subst, inl, inr, false, ◌&&◌, Option, none, some, List, arith, first, any,
  ◌==◌, Bool-cases, Option-cases, first-holds,
}
use package.ayo_snbt_backend.Common.Action.{after}
use package.ayo_snbt_backend.Common.Keys.{by, Distinct, first-by_key}
use package.ayo_snbt_backend.Payments.Data.{PaymentEvent, Order, Db}
use package.ayo_snbt_backend.Payments.Coupons.{create_coupon, CouponInput, insert_coupon}
use package.ayo_snbt_backend.Payments.Orders.{
  CreatePayment, is_stale, get_order, is_refundable, is_paid, fulfill_order, refund_order,
}
use package.ayo_snbt_backend.Payments.Webhook.{
  Verified, is_advanced, process, handle_webhook, deliver,
}
use package.ayo_snbt_backend.Payments.Adds.{Adds, create_order-Adds}
use package.ayo_snbt_backend.Payments.Moves.{
  order_id, Change, same, moved, added, refundable_edge, stale_edge, unpaid_edge, paid_edge,
  follows_by,
}
use package.ayo_snbt_backend.Payments.Step.{
  Call, creates_order, gets_order, delivers, fulfills, refunds, creates_coupon, step, IsFresh,
}

found_by_id :
    (user order : ℕ) (db : Db) (o : Order)
    → Distinct order_id db.orders
    → first (λ o. by order_id order o && (o.user_id == user)) db.orders ≡ some o
    → first (by order_id order) db.orders ≡ some o
found_by_id user order db o d e =
    let p : o.id ≡ order = ground (arith, first-holds _ db.orders o e) in
    subst (λ k. first (by order_id k) db.orders ≡ some o) p
      (first-by_key order_id _ db.orders o d e)

get_order-Change :
    (user order now : ℕ) (db : Db)
    → Distinct order_id db.orders
    → Change db.orders (after (get_order user order now db)).orders
unfolding get_order
get_order-Change user order now db d =
    elim (Option-cases (first (λ o. by order_id order o && (o.user_id == user)) db.orders)) [
      | inl e ↦ rw (e, get_order) (same refl)
      | inr (o, e) ↦ elim (Bool-cases (is_stale o now)) [
        | inl s ↦
            rw (e, get_order)
              (rw (s, get_order)
                (moved _ order o (λ x. refl) (found_by_id user order db o d e)
                  (follows_by refl refl refl refl (inr (stale_edge o now o.status refl s))) refl))
        | inr s ↦ rw (e, get_order) (rw (s, get_order) (same refl))
      ]
    ]

refund_order-Change :
    (order now : ℕ) (db : Db) → Change db.orders (after (refund_order order now db)).orders
unfolding refund_order
refund_order-Change order now db = elim (Option-cases (first (by order_id order) db.orders)) [
  | inl e ↦ rw (e, refund_order) (same refl)
  | inr (o, e) ↦ elim (Bool-cases (is_refundable o.status)) [
    | inl s ↦
        rw (e, refund_order)
          (rw (s, refund_order)
            (moved _ order o (λ x. refl) e
              (follows_by refl refl refl refl (refundable_edge o.status s)) refl))
    | inr s ↦ rw (e, refund_order) (rw (s, refund_order) (same refl))
  ]
]

found_again :
    (order : ℕ) (db : Db) (o : Order)
    → first (by order_id order) db.orders ≡ some o
    → first (by order_id o.id) db.orders ≡ some o
found_again order db o e =
    let p : o.id ≡ order = ground (arith, first-holds _ db.orders o e) in
    subst (λ k. first (by order_id k) db.orders ≡ some o) (sym p) e

fulfill_order-Change :
    (order now : ℕ) (db : Db) → Change db.orders (after (fulfill_order order now db)).orders
unfolding fulfill_order
fulfill_order-Change order now db = elim (Option-cases (first (by order_id order) db.orders)) [
  | inl e ↦ rw (e, fulfill_order) (same refl)
  | inr (o, e) ↦ elim (Bool-cases (is_paid o.status)) [
    | inl s ↦
        rw (e, fulfill_order)
          (rw (s, fulfill_order)
            (moved _ o.id o (λ x. refl) (found_again order db o e)
              (follows_by refl refl refl refl (inr (paid_edge o.status s))) refl))
    | inr s ↦ rw (e, fulfill_order) (rw (s, fulfill_order) (same refl))
  ]
]

process-Change :
    (provider : ℕ) (v : Verified) (o : Order) (now : ℕ) (db : Db)
    → first (by order_id o.id) db.orders ≡ some o
    → Change db.orders (after (process provider v o now db)).orders
unfolding process
process-Change provider v o now db e =
    elim (Bool-cases (any (by (λ (x : PaymentEvent). x.event_id) v.event_id) db.payment_events)) [
      | inl t ↦ rw (t, process) (same refl)
      | inr t ↦ elim (Bool-cases v.is_paid) [
        | inr p ↦ rw (t, process) (rw (p, process) (same refl))
        | inl p ↦ elim (Bool-cases (is_advanced o.status)) [
          | inl s ↦ rw (t, process) (rw (p, process) (rw (s, process) (same refl)))
          | inr s ↦
              rw (t, process)
                (rw (p, process)
                  (rw (s, process)
                    (moved _ o.id o (λ x. refl) e
                      (follows_by refl refl refl refl (inr (unpaid_edge o.status s))) refl)))
        ]
      ]
    ]

handle_webhook-Change :
    (provider : ℕ) (v : Option Verified) (now : ℕ) (db : Db)
    → Distinct order_id db.orders
    → Change db.orders (after (handle_webhook provider (λ v. v) v now db)).orders
unfolding handle_webhook
handle_webhook-Change provider none now db d = same refl
handle_webhook-Change provider (some v) now db d =
    elim (Option-cases (first (by (λ (x : Order). x.order_number) v.order_number) db.orders)) [
      | inl e ↦ rw (e, deliver) (same refl)
      | inr (o, e) ↦
          rw (e, deliver)
            (elim (Bool-cases
              (any (by (λ (x : PaymentEvent). x.event_id) v.event_id) db.payment_events)) [
                | inl t ↦ rw t (same refl)
                | inr t ↦
                    rw t
                      (process-Change provider v o now db (first-by_key order_id _ db.orders o d e))
              ])
    ]

create_coupon-orders :
    (id : ℕ) (input : CouponInput) (db : Db)
    → (after (create_coupon id input db)).orders ≡ db.orders
unfolding create_coupon insert_coupon
create_coupon-orders id input db = ground arith

Adds-Change :
    (xs ys : List Order) (k : ℕ) → any (by order_id k) xs ≡ false → Adds k xs ys → Change xs ys
Adds-Change xs ys k new (inl e) = same e
Adds-Change xs ys k new (inr (o, p, s, e)) = added o (rw p new) s e

module _ (provider : ℕ) (create_payment : CreatePayment) where
  -- What one call does to the orders.
  pub step-Change :
      (db : Db) (c : Call)
      → Distinct order_id db.orders
      → IsFresh db c
      → Change db.orders (step provider create_payment db c).orders
  unfolding step
  step-Change db (creates_order fresh user input) d new =
      Adds-Change db.orders _ fresh.id new
        (create_order-Adds provider create_payment fresh user input db)
  step-Change db (gets_order user order now) d new = get_order-Change user order now db d
  step-Change db (delivers v now) d new = handle_webhook-Change provider v now db d
  step-Change db (fulfills order now) d new = fulfill_order-Change order now db
  step-Change db (refunds order now) d new = refund_order-Change order now db
  step-Change db (creates_coupon id input) d new = same (create_coupon-orders id input db)
