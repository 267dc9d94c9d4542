-- ===== src/Payments/Adds.antt =====
-- Which calls add an order.
use package.ayo_snbt_backend.Common.Text.{Text}
use package.ayo_snbt_backend.Common.{
  ℕ, ◌≡◌, refl, subst, ◌⊎◌, inl, inr, Option, none, some, List, [], ◌∷◌, ◌++◌, arith, first, any,
  Bool-cases, Option-cases,
}
use package.ayo_snbt_backend.Common.Action.{after, after-and_then, or_throw, other_error, ◌>>=◌}
use package.ayo_snbt_backend.Common.Keys.{by}
use package.ayo_snbt_backend.Payments.Data.{pending, Order, User, Db}
use package.ayo_snbt_backend.Payments.Coupons.{AppliedCoupon, percent_of, discounted, apply_coupon}
use package.ayo_snbt_backend.Payments.Orders.{
  OrderInput, CreatePayment, CreatePaymentResult, NewOrder, Priced, free, priced, price,
  insert_order, new_order, place, place_paid, place_order, create_order,
}

apply_coupon-orders :
    (code : Option Text) (target : Option ℕ) (now : ℕ) (db : Db)
    → (after (apply_coupon code target now db)).orders ≡ db.orders
unfolding apply_coupon
apply_coupon-orders none target now db = refl
apply_coupon-orders (some []) target now db = refl
apply_coupon-orders (some (c ∷ code)) target now db = ground arith

price-orders :
    (user : ℕ) (input : OrderInput) (db : Db) → (after (price user input db)).orders ≡ db.orders
unfolding price
price-orders user input db = ground arith

-- A call left the orders as they were, or added one new pending order behind them.
abbrev pub Adds : ℕ → List Order → List Order → Type 0
Adds i xs ys = (ys ≡ xs) ⊎ ((o : Order) × (o.id ≡ i) × (o.status ≡ pending) × (ys ≡ xs ++ o ∷ []))

insert_order-Adds :
    (o : Order) (db : Db)
    → o.status ≡ pending
    → Adds o.id db.orders (after (insert_order o db)).orders
unfolding insert_order
insert_order-Adds o db h =
    elim (Bool-cases (any (by (λ (x : Order). x.order_number) o.order_number) db.orders)) [
      | inl e ↦ rw (e, insert_order) (inl refl)
      | inr e ↦ rw (e, insert_order) (inr (o, refl, h, refl))
    ]

module _ (provider : ℕ) (create_payment : CreatePayment) where
  place_paid-Adds :
      (fresh : NewOrder) (user : ℕ) (input : OrderInput) (title base : ℕ) (bundle : Option ℕ)
      (used : AppliedCoupon) (db : Db)
      → Adds fresh.id db.orders
          (after
            (place_paid provider create_payment fresh user input title base bundle used db)).orders
  unfolding place_paid
  place_paid-Adds fresh user input title base bundle used db =
      elim (Option-cases (first (by (λ (x : User). x.id) user) db.users)) [
        | inl e ↦ rw (e, place_paid) (inl refl)
        | inr (u, e) ↦
            rw (e, place_paid)
              (paid_for (
                create_payment (record {
                  order_number = fresh.order_number;
                  amount_cents = discounted base (percent_of used);
                  email = u.email;
                  course_title = title;
                })))
      ]
    where
      paid_for :
          (payment : Option CreatePaymentResult)
          → Adds fresh.id db.orders
              (after (
                (or_throw payment other_error >>= (λ p. insert_order (
                    new_order provider create_payment fresh user input title bundle
                      (discounted base (percent_of used))
                      used
                      p)))
                  db)).orders
      paid_for none = inl refl
      paid_for (some p) = insert_order-Adds _ db refl

  place_order-Adds :
      (fresh : NewOrder) (user : ℕ) (input : OrderInput) (title base : ℕ) (bundle : Option ℕ)
      (db : Db)
      → Adds fresh.id db.orders
          (after (place_order provider create_payment fresh user input title base bundle db)).orders
  unfolding place_order
  place_order-Adds fresh user input title base bundle db =
      after-and_then (λ s. s.orders ≡ db.orders) (λ s. Adds fresh.id db.orders s.orders)
        (apply_coupon input.coupon_code input.course_id fresh.now db)
        (place_paid provider create_payment fresh user input title base bundle)
        (apply_coupon-orders input.coupon_code input.course_id fresh.now db) (λ s e. inl e)
        (λ used s e.
          subst
            (λ xs.
              Adds fresh.id xs
                (after (
                  place_paid provider create_payment fresh user input title base bundle used
                    s)).orders)
            e (place_paid-Adds fresh user input title base bundle used s))

  place-Adds :
      (fresh : NewOrder) (user : ℕ) (input : OrderInput) (target : Priced) (db : Db)
      → Adds fresh.id db.orders
          (after (place provider create_payment fresh user input target db)).orders
  unfolding place
  place-Adds fresh user input free db = inl refl
  place-Adds fresh user input (priced title base bundle) db =
      place_order-Adds fresh user input title base bundle db

  pub create_order-Adds :
      (fresh : NewOrder) (user : ℕ) (input : OrderInput) (db : Db)
      → Adds fresh.id db.orders
          (after (create_order provider create_payment fresh user input db)).orders
  unfolding create_order
  create_order-Adds fresh user input db =
      after-and_then (λ s. s.orders ≡ db.orders) (λ s. Adds fresh.id db.orders s.orders)
        (price user input db) (place provider create_payment fresh user input)
        (price-orders user input db) (λ s e. inl e)
        (λ target s e.
          subst
            (λ xs.
              Adds fresh.id xs
                (after (place provider create_payment fresh user input target s)).orders)
            e (place-Adds fresh user input target s))
