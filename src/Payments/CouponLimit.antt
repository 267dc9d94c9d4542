-- ===== src/Payments/CouponLimit.antt =====
-- No coupon is used more often than its limit.
use package.ayo_snbt_backend.Common.Text.{Text, text_eq}
use package.ayo_snbt_backend.Common.{
  ℕ, ◌≡◌, ◌+◌, refl, ap, inl, inr, Bool, true, false, ◌&&◌, Option, none, some, List, [], ◌∷◌, ◌++◌,
  arith, first, any, ◌==◌, if◌then◌else◌, Bool-cases, Option-cases, ◌≤◌, All, not, ltb, ◌||◌,
}
use package.ayo_snbt_backend.Common.Action.{after, after-and_then}
use package.ayo_snbt_backend.Common.Keys.{
  by, Distinct, Distinct-update, Distinct-append, only_by_key,
}
use package.ayo_snbt_backend.Payments.Data.{PaymentEvent, Order, Db, Coupon}
use package.ayo_snbt_backend.Payments.Coupons.{
  AppliedCoupon, apply_coupon, redeem, create_coupon, CouponInput, bump_coupon, bumps, use_once,
  is_exhausted, is_past, is_out_of_scope,
}
use package.ayo_snbt_backend.Payments.Orders.{
  OrderInput, CreatePayment, NewOrder, Priced, free, priced, price, insert_order, place, place_paid,
  place_order, create_order, get_order, fulfill_order, refund_order,
}
use package.ayo_snbt_backend.Payments.Webhook.{
  Verified, is_advanced, process, handle_webhook, mark_paid, deliver,
}
use package.ayo_snbt_backend.Payments.CouponCode.{normalize}
use package.ayo_snbt_backend.Payments.Status.{AllFresh}
use package.ayo_snbt_backend.Payments.CouponCode.{is_valid_code}
use package.ayo_snbt_backend.Payments.Coupons.{is_zero, insert_coupon, new_coupon}
use package.ayo_snbt_backend.Payments.Step.{
  Call, creates_order, gets_order, delivers, fulfills, refunds, creates_coupon, step, run, IsFresh,
}

abbrev IsWithinLimit : Option ℕ → ℕ → Type 0
IsWithinLimit none uses = Unit
IsWithinLimit (some m) uses = uses ≤ m

-- The coupon has been used at most `max_uses` times, where it has a limit.
abbrev pub IsWithin : Coupon → Type 0
IsWithin c = IsWithinLimit c.max_uses c.uses_count

abbrev pub coupon_id : Coupon → ℕ
coupon_id c = c.id

-- The limit that was read before is still the row's.
abbrev SameLimit : Coupon → Coupon → Type 0
SameLimit read row = (row.id == read.id) ≡ true → row.max_uses ≡ read.max_uses

limit_step :
    (limit read_limit : Option ℕ) (uses : ℕ) (hit : Bool)
    → (hit ≡ true → limit ≡ read_limit)
    → IsWithinLimit limit uses
    → (hit && not (is_exhausted read_limit uses)) ≡ true
    → IsWithinLimit limit (uses + 1)
unfolding is_exhausted
limit_step none read_limit uses hit agree w h = tt
limit_step (some m) none uses true agree w h = cc (agree refl)
limit_step (some m) none uses false agree w h = cc
limit_step (some m) (some n) uses true agree w h = ground (arith, agree refl)
limit_step (some m) (some n) uses false agree w h = cc

bumped_row :
    (read row : Coupon)
    → SameLimit read row
    → IsWithin row
    → IsWithin (if bumps read row then use_once row else row)
unfolding bumps use_once
bumped_row read row agree w = elim (Bool-cases (bumps read row)) [
  | inl e ↦
      rw e (limit_step row.max_uses read.max_uses row.uses_count (row.id == read.id) agree w e)
  | inr e ↦ rw e w
]

-- The conditional increment keeps every coupon within its limit, also where the coupon was read
-- before other calls used it up.
pub bump_coupon-IsWithin :
    (read : Coupon) (xs : List Coupon)
    → All (SameLimit read) xs
    → All IsWithin xs
    → All IsWithin (bump_coupon read xs)
unfolding bump_coupon
bump_coupon-IsWithin read [] agree w = tt
bump_coupon-IsWithin read (x ∷ xs) agree w =
    (bumped_row read x agree.0 w.0, bump_coupon-IsWithin read xs agree.1 w.1)

same_limits :
    (o : Coupon) (xs : List Coupon)
    → All (λ x. (coupon_id x == coupon_id o) ≡ true → x ≡ o) xs
    → All (SameLimit o) xs
same_limits o [] a = tt
same_limits o (x ∷ xs) a = (λ t. ap (λ (c : Coupon). c.max_uses) (a.0 t), same_limits o xs a.1)

-- Ids stay distinct and counts within their limits.
abbrev pub CouponInv : List Coupon → Type 0
CouponInv xs = Distinct coupon_id xs × All IsWithin xs

bump-CouponInv :
    (q : Coupon → Bool) (xs : List Coupon) (o : Coupon)
    → first q xs ≡ some o
    → CouponInv xs
    → CouponInv (bump_coupon o xs)
unfolding bump_coupon use_once
bump-CouponInv q xs o e v = (
  Distinct-update coupon_id (bumps o) use_once xs (λ x. refl) v.0,
  bump_coupon-IsWithin o xs (same_limits o xs (only_by_key coupon_id q xs o v.0 e)) v.1,
)

redeem-CouponInv :
    (code : Text) (target : Option ℕ) (now : ℕ) (db : Db)
    → CouponInv db.coupons
    → CouponInv (after (redeem code target now db)).coupons
unfolding redeem
redeem-CouponInv code target now db v =
    elim (Option-cases (first (λ (c : Coupon). text_eq c.code (normalize code)) db.coupons)) [
      | inl e ↦ rw (e, redeem) v
      | inr (o, e) ↦
          rw (e, redeem)
            (elim (Bool-cases (is_past o.expires_at now)) [
              | inl a ↦ rw a v
              | inr a ↦ rw a (elim (Bool-cases (is_exhausted o.max_uses o.uses_count)) [
                | inl b ↦ rw b v
                | inr b ↦ rw b (elim (Bool-cases (is_out_of_scope o.course_id target)) [
                  | inl c ↦ rw c v
                  | inr c ↦ rw c (elim (Bool-cases (any (bumps o) db.coupons)) [
                    | inl t ↦ rw t (bump-CouponInv _ db.coupons o e v)
                    | inr t ↦ rw t (bump-CouponInv _ db.coupons o e v)
                  ])
                ])
              ])
            ])
    ]

apply_coupon-CouponInv :
    (code : Option Text) (target : Option ℕ) (now : ℕ) (db : Db)
    → CouponInv db.coupons
    → CouponInv (after (apply_coupon code target now db)).coupons
unfolding apply_coupon
apply_coupon-CouponInv none target now db v = v
apply_coupon-CouponInv (some []) target now db v = v
apply_coupon-CouponInv (some (c ∷ code)) target now db v =
    redeem-CouponInv (c ∷ code) target now db v

price-coupons :
    (user : ℕ) (input : OrderInput) (db : Db) → (after (price user input db)).coupons ≡ db.coupons
unfolding price
price-coupons user input db = ground arith

module _ (provider : ℕ) (create_payment : CreatePayment) where
  place_paid-coupons :
      (fresh : NewOrder) (user : ℕ) (input : OrderInput) (title base : ℕ) (bundle : Option ℕ)
      (used : AppliedCoupon) (db : Db)
      → (after
          (place_paid provider create_payment fresh user input title base bundle used db)).coupons
        ≡ db.coupons
  unfolding place_paid insert_order
  place_paid-coupons fresh user input title base bundle used db = ground arith

  place-CouponInv :
      (fresh : NewOrder) (user : ℕ) (input : OrderInput) (target : Priced) (db : Db)
      → CouponInv db.coupons
      → CouponInv (after (place provider create_payment fresh user input target db)).coupons
  unfolding place place_order
  place-CouponInv fresh user input free db v = v
  place-CouponInv fresh user input (priced title base bundle) db v =
      after-and_then (λ s. CouponInv s.coupons) (λ s. CouponInv s.coupons)
        (apply_coupon input.coupon_code input.course_id fresh.now db)
        (place_paid provider create_payment fresh user input title base bundle)
        (apply_coupon-CouponInv input.coupon_code input.course_id fresh.now db v) (λ s w. w)
        (λ used s w. rw (place_paid-coupons fresh user input title base bundle used s) w)

  create_order-CouponInv :
      (fresh : NewOrder) (user : ℕ) (input : OrderInput) (db : Db)
      → CouponInv db.coupons
      → CouponInv (after (create_order provider create_payment fresh user input db)).coupons
  unfolding create_order
  create_order-CouponInv fresh user input db v =
      after-and_then (λ s. CouponInv s.coupons) (λ s. CouponInv s.coupons) (price user input db)
        (place provider create_payment fresh user input) (rw (price-coupons user input db) v)
        (λ s w. w) (λ target s w. place-CouponInv fresh user input target s w)

All-snoc :
    (xs : List Coupon) (c : Coupon) → All IsWithin xs → IsWithin c → All IsWithin (xs ++ c ∷ [])
All-snoc [] c a w = (w, tt)
All-snoc (x ∷ xs) c a w = (a.0, All-snoc xs c a.1 w)

unused : (limit : Option ℕ) → IsWithinLimit limit 0
unused none = tt
unused (some m) = omega arith

insert_coupon-CouponInv :
    (row : Coupon) (db : Db)
    → any (by coupon_id row.id) db.coupons ≡ false
    → IsWithin row
    → CouponInv db.coupons
    → CouponInv (after (insert_coupon row db)).coupons
unfolding insert_coupon
insert_coupon-CouponInv row db new w v =
    elim (Bool-cases (any (λ (c : Coupon). text_eq c.code row.code) db.coupons)) [
      | inl t ↦ rw (t, insert_coupon) v
      | inr t ↦
          rw (t, insert_coupon)
            (Distinct-append coupon_id db.coupons row new v.0, All-snoc db.coupons row v.1 w)
    ]

create_coupon-CouponInv :
    (id : ℕ) (input : CouponInput) (db : Db)
    → any (by coupon_id id) db.coupons ≡ false
    → CouponInv db.coupons
    → CouponInv (after (create_coupon id input db)).coupons
unfolding create_coupon
create_coupon-CouponInv id input db new v =
    elim (Bool-cases (is_valid_code (normalize input.code))) [
      | inr a ↦ rw (a, create_coupon) v
      | inl a ↦
          rw (a, create_coupon)
            (elim (Bool-cases (ltb input.percent_off 1 || ltb 100 input.percent_off)) [
              | inl b ↦ rw b v
              | inr b ↦ rw b (elim (Bool-cases (is_zero input.max_uses)) [
                | inl c ↦ rw c v
                | inr c ↦
                    rw c (
                      insert_coupon-CouponInv (new_coupon id input) db new (unused input.max_uses)
                        v)
              ])
            ])
    ]

fulfill_order-coupons :
    (order now : ℕ) (db : Db) → (after (fulfill_order order now db)).coupons ≡ db.coupons
unfolding fulfill_order
fulfill_order-coupons order now db = ground arith

get_order-coupons :
    (user order now : ℕ) (db : Db) → (after (get_order user order now db)).coupons ≡ db.coupons
unfolding get_order
get_order-coupons user order now db = ground arith

refund_order-coupons :
    (order now : ℕ) (db : Db) → (after (refund_order order now db)).coupons ≡ db.coupons
unfolding refund_order
refund_order-coupons order now db = ground arith

process-coupons :
    (provider : ℕ) (v : Verified) (o : Order) (now : ℕ) (db : Db)
    → (after (process provider v o now db)).coupons ≡ db.coupons
unfolding process mark_paid
process-coupons provider v o now db =
    elim (Bool-cases (any (by (λ (x : PaymentEvent). x.event_id) v.event_id) db.payment_events)) [
      | inl t ↦ rw (t, process) refl
      | inr t ↦ elim (Bool-cases v.is_paid) [
        | inr p ↦ rw (t, process) (rw (p, process) refl)
        | inl p ↦ elim (Bool-cases (is_advanced o.status)) [
          | inl s ↦ rw (t, process) (rw (p, process) (rw (s, process) refl))
          | inr s ↦ rw (t, process) (rw (p, process) (rw (s, process) refl))
        ]
      ]
    ]

handle_webhook-coupons :
    (provider : ℕ) (v : Option Verified) (now : ℕ) (db : Db)
    → (after (handle_webhook provider (λ v. v) v now db)).coupons ≡ db.coupons
unfolding handle_webhook
handle_webhook-coupons provider none now db = refl
handle_webhook-coupons provider (some v) now db =
    elim (Option-cases (first (by (λ (x : Order). x.order_number) v.order_number) db.orders)) [
      | inl e ↦ rw (e, deliver) refl
      | inr (o, e) ↦
          rw (e, deliver)
            (elim (Bool-cases
              (any (by (λ (x : PaymentEvent). x.event_id) v.event_id) db.payment_events)) [
                | inl t ↦ rw t refl
                | inr t ↦ rw t (process-coupons provider v o now db)
              ])
    ]

module _ (provider : ℕ) (create_payment : CreatePayment) where
  step-CouponInv :
      (db : Db) (c : Call)
      → IsFresh db c
      → CouponInv db.coupons
      → CouponInv (step provider create_payment db c).coupons
  unfolding step
  step-CouponInv db (creates_order fresh user input) new v =
      create_order-CouponInv provider create_payment fresh user input db v
  step-CouponInv db (gets_order user order now) new v = rw (get_order-coupons user order now db) v
  step-CouponInv db (delivers p now) new v = rw (handle_webhook-coupons provider p now db) v
  step-CouponInv db (fulfills order now) new v = rw (fulfill_order-coupons order now db) v
  step-CouponInv db (refunds order now) new v = rw (refund_order-coupons order now db) v
  step-CouponInv db (creates_coupon id input) new v = create_coupon-CouponInv id input db new v

  -- Where ids are distinct and every coupon is within its limit, and new rows bring new ids: after
  -- any calls no coupon has been used more often than its `max_uses`.
  pub run-CouponInv :
      (db : Db) (cs : List Call)
      → AllFresh provider create_payment db cs
      → CouponInv db.coupons
      → CouponInv (run provider create_payment db cs).coupons
  unfolding run
  run-CouponInv db [] new v = v
  run-CouponInv db (c ∷ cs) new v =
      run-CouponInv (step provider create_payment db c) cs new.1 (step-CouponInv db c new.0 v)
