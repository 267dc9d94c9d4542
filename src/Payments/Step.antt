-- ===== src/Payments/Step.antt =====
-- The calls that change orders, coupons or enrolments, in any order.
use package.ayo_snbt_backend.Common.{ℕ, ◌≡◌, Option, List, [], ◌∷◌, false, any}
use package.ayo_snbt_backend.Common.Action.{after}
use package.ayo_snbt_backend.Common.Keys.{by}
use package.ayo_snbt_backend.Payments.Data.{Order, Coupon, Db}
use package.ayo_snbt_backend.Payments.Coupons.{CouponInput, create_coupon}
use package.ayo_snbt_backend.Payments.Orders.{
  OrderInput, CreatePayment, NewOrder, create_order, get_order, fulfill_order, refund_order,
}
use package.ayo_snbt_backend.Payments.Webhook.{Verified, handle_webhook}

pub data Call : Type 0 where
  creates_order : NewOrder → ℕ → OrderInput → Call
  gets_order : ℕ → ℕ → ℕ → Call
  -- A webhook, by what its provider reads off the payload.
  delivers : Option Verified → ℕ → Call
  fulfills : ℕ → ℕ → Call
  refunds : ℕ → ℕ → Call
  creates_coupon : ℕ → CouponInput → Call

module _ (provider : ℕ) (create_payment : CreatePayment) where
  unfoldable pub step : Db → Call → Db
  step db (creates_order fresh user input) =
      after (create_order provider create_payment fresh user input db)
  step db (gets_order user order now) = after (get_order user order now db)
  step db (delivers verified now) = after (handle_webhook provider (λ v. v) verified now db)
  step db (fulfills order now) = after (fulfill_order order now db)
  step db (refunds order now) = after (refund_order order now db)
  step db (creates_coupon id input) = after (create_coupon id input db)

  unfoldable pub run : Db → List Call → Db
  run db [] = db
  run db (c ∷ cs) = run (step db c) cs

-- The id of a new order or coupon is new: no row has it.
abbrev pub IsFresh : Db → Call → Type 0
IsFresh db (creates_order fresh user input) =
    any (by (λ (o : Order). o.id) fresh.id) db.orders ≡ false
IsFresh db (creates_coupon id input) = any (by (λ (c : Coupon). c.id) id) db.coupons ≡ false
IsFresh db _ = Unit
