-- ===== src/Payments/Effects.antt =====
-- What the calls do: replays, fulfilment, refunds and lost coupons.
use package.ayo_snbt_backend.Common.{
  ℕ, ◌≡◌, refl, sym, ap, subst, ◌⊎◌, inl, inr, true, false, Option, none, some, List, [], ◌∷◌, ◌++◌,
  arith, first, any, update, ◌==◌, if◌then◌else◌, Bool-cases, Option-cases, first-holds, any-append,
  first-update, ◌∙◌, ==_refl,
}
use package.ayo_snbt_backend.Common.Action.{
  after, other_error, returns, throws, bad_request_error, bad_request, not_found_error, AppError,
}
use package.ayo_snbt_backend.Common.Keys.{by, first-by-update}
use package.ayo_snbt_backend.Payments.Data.{
  OrderStatus, created, pending, paid, fulfilled, refunded, expired, PaymentEvent, Order, User, Db,
}
use package.ayo_snbt_backend.Payments.Coupons.{AppliedCoupon, apply_coupon}
use package.ayo_snbt_backend.Payments.Orders.{
  OrderInput, NewOrder, place_paid, place_order, is_refundable, is_paid, fulfill_order,
  refund_order, set_status, fulfill_found,
}
use package.ayo_snbt_backend.Payments.Webhook.{
  Verified, is_advanced, process, handle_webhook, mark_paid, WebhookResult, deliver, set_paid,
}
use package.ayo_snbt_backend.Payments.Moves.{order_id, order_at}

abbrev event_key : PaymentEvent → ℕ
event_key e = e.event_id

abbrev number_key : Order → ℕ
number_key o = o.order_number

-- The event is on record, and so is the order that it names.
abbrev Known : Verified → Db → Type 0
Known v db =
    (any (by event_key v.event_id) db.payment_events ≡ true)
    × (o : Order) × (first (by number_key v.order_number) db.orders ≡ some o)

deliver-Known :
    (provider : ℕ) (v : Verified) (now : ℕ) (db : Db) (k : Known v db)
    → deliver provider v now db
      ≡ returns (record { processed = false; order_id = (k.1).id; status = (k.1).status }) db
unfolding deliver
deliver-Known provider v now db k = rw (k.2, deliver) (rw (k.0, deliver) refl)

logged :
    (v : Verified) (e : PaymentEvent) (es : List PaymentEvent)
    → e.event_id ≡ v.event_id
    → any (by event_key v.event_id) (es ++ e ∷ []) ≡ true
logged v e es h = ground (arith, any-append (by event_key v.event_id) es (e ∷ []))

process-Known :
    (provider : ℕ) (v : Verified) (o : Order) (now : ℕ) (db : Db)
    → first (by number_key v.order_number) db.orders ≡ some o
    → any (by event_key v.event_id) db.payment_events ≡ false
    → Known v (after (process provider v o now db))
unfolding process mark_paid
process-Known provider v o now db e t = elim (Bool-cases v.is_paid) [
  | inr p ↦ rw (t, process) (rw (p, process) (logged v _ db.payment_events refl, o, e))
  | inl p ↦ elim (Bool-cases (is_advanced o.status)) [
    | inl s ↦
        rw (t, process)
          (rw (p, process) (rw (s, process) (logged v _ db.payment_events refl, o, e)))
    | inr s ↦
        rw (t, process)
          (rw (p, process)
            (rw (s, process)
              (
                logged v _ db.payment_events refl,
                (if order_id o == o.id then set_paid now o else o),
                first-update (by order_id o.id) (by number_key v.order_number) (set_paid now)
                      db.orders (λ x. refl)
                    ∙ rw e,
              )))
  ]
]

deliver_keeps :
    (provider : ℕ) (v : Verified) (now : ℕ) (db : Db)
    → (Known v (after (deliver provider v now db)))
      ⊎ (deliver provider v now db ≡ throws not_found_error db)
unfolding deliver
deliver_keeps provider v now db =
    elim (Option-cases (first (by number_key v.order_number) db.orders)) [
      | inl e ↦ rw (e, deliver) (inr refl)
      | inr (o, e) ↦
          rw (e, deliver)
            (elim (Bool-cases (any (by event_key v.event_id) db.payment_events)) [
              | inl t ↦ rw t (inl (t, o, e))
              | inr t ↦ rw t (inl (process-Known provider v o now db e t))
            ])
    ]

-- A payload that was taken once is not processed again: a second delivery, at any time, reports
-- `processed: false` and changes nothing.
pub handle_webhook_replay :
    {Payload : Type 0} (provider : ℕ) (verify : Payload → Option Verified) (p : Payload)
    (now later : ℕ) (db db' : Db) (r : WebhookResult)
    → handle_webhook provider verify p now db ≡ returns r db'
    → (r' : WebhookResult) × (handle_webhook provider verify p later db' ≡ returns r' db')
      × (r'.processed ≡ false)
unfolding handle_webhook
handle_webhook_replay provider verify p now later db db' r h = elim (Option-cases (verify p)) [
  | inl e ↦ cc (rw (e, handle_webhook) at h)
  | inr (v, e) ↦ again v e (deliver_keeps provider v now db) (rw (e, handle_webhook) at h)
]
  where
    again :
        (v : Verified)
        → verify p ≡ some v
        → (Known v (after (deliver provider v now db)))
          ⊎ (deliver provider v now db ≡ throws not_found_error db)
        → deliver provider v now db ≡ returns r db'
        → (r' : WebhookResult) × (handle_webhook provider verify p later db' ≡ returns r' db')
          × (r'.processed ≡ false)
    again v e (inr t) g = cc
    again v e (inl k) g =
        let k' : Known v db' = subst (Known v) (ap after g) k in
        (
          record { processed = false; order_id = (k'.1).id; status = (k'.1).status },
          rw (e, handle_webhook) (deliver-Known provider v later db' k'),
          refl,
        )

found_after :
    (f : Order → Order) (order : ℕ) (xs : List Order) (o : Order)
    → ((x : Order) → (f x).id ≡ x.id)
    → first (by order_id order) xs ≡ some o
    → first (by order_id order) (update (by order_id order) f xs) ≡ some (f o)
found_after f order xs o keeps e =
    rw (first-by-update order_id order order f xs keeps, e, ==_refl order)

found_fulfilled :
    (order now : ℕ) (db : Db) (o : Order)
    → first (by order_id order) db.orders ≡ some o
    → is_paid o.status ≡ true
    → first (by order_id order) (fulfill_found (some o) now db).orders
      ≡ some (set_status fulfilled now o)
unfolding fulfill_found
found_fulfilled order now db o e s =
    let p : order ≡ o.id = ground (arith, first-holds _ db.orders o e) in
    rw s (
      subst
        (λ k.
          first (by order_id order) (update (by order_id k) (set_status fulfilled now) db.orders)
          ≡ some (set_status fulfilled now o))
        p (found_after (set_status fulfilled now) order db.orders o (λ x. refl) e))

fulfilled_again :
    (q : Option Order) (order now later : ℕ) (db : Db)
    → first (by order_id order) db.orders ≡ q
    → fulfill_found
        (first (by order_id order) (fulfill_found q now db).orders)
        later
        (fulfill_found q now db)
      ≡ fulfill_found q now db
unfolding fulfill_found
fulfilled_again none order now later db e = rw (e, fulfill_found)
fulfilled_again (some o) order now later db e = elim (Bool-cases (is_paid o.status)) [
  | inl s ↦
      ap (λ q. fulfill_found q later (fulfill_found (some o) now db))
        (found_fulfilled order now db o e s)
  | inr s ↦ rw (s, fulfill_found) (rw (e, fulfill_found) (rw (s, fulfill_found) refl))
]

-- Fulfilling an order twice is fulfilling it once: no second receipt, enrolment or event.
pub fulfill_order_twice :
    (order now later : ℕ) (db : Db)
    → after (fulfill_order order later (after (fulfill_order order now db)))
      ≡ after (fulfill_order order now db)
unfolding fulfill_order
fulfill_order_twice order now later db =
    fulfilled_again (first (by order_id order) db.orders) order now later db refl

refundable_cases : (s : OrderStatus) → is_refundable s ≡ true → (s ≡ paid) ⊎ (s ≡ fulfilled)
refundable_cases paid h = inl refl
refundable_cases fulfilled h = inr refl
refundable_cases created h = cc
refundable_cases pending h = cc
refundable_cases refunded h = cc
refundable_cases expired h = cc

abbrev pub set_refunded : ℕ → Order → Order
set_refunded now o = record o { status = refunded; refunded_at = some now; updated_at = now }

-- A refund that returns has found a paid or fulfilled order and left it refunded; a second refund
-- then throws a bad request and changes nothing.
pub refund_order_twice :
    (order now later : ℕ) (db db' : Db)
    → refund_order order now db ≡ returns tt db'
    → ((o : Order) × (order_at db order ≡ some o)
        × ((o.status ≡ paid) ⊎ (o.status ≡ fulfilled))
        × (order_at db' order ≡ some (set_refunded now o)))
      × (refund_order order later db' ≡ throws (bad_request_error bad_request) db')
unfolding refund_order
refund_order_twice order now later db db' h =
    elim (Option-cases (first (by order_id order) db.orders)) [
      | inl e ↦ cc (rw (e, refund_order) at h)
      | inr (o, e) ↦ elim (Bool-cases (is_refundable o.status)) [
        | inr s ↦ cc (rw (s, refund_order) at (rw (e, refund_order) at h))
        | inl s ↦ left o e s (ap after (rw (s, refund_order) at (rw (e, refund_order) at h)))
      ]
    ]
  where
    left :
        (o : Order)
        → first (by order_id order) db.orders ≡ some o
        → is_refundable o.status ≡ true
        → record db { orders = update (by order_id order) (set_refunded now) db.orders } ≡ db'
        → ((o : Order) × (order_at db order ≡ some o)
            × ((o.status ≡ paid) ⊎ (o.status ≡ fulfilled))
            × (order_at db' order ≡ some (set_refunded now o)))
          × (refund_order order later db' ≡ throws (bad_request_error bad_request) db')
    left o e s g =
        let k : order_at db' order ≡ some (set_refunded now o) =
          ap (λ d. order_at d order) (sym g)
          ∙ found_after (set_refunded now) order db.orders o (λ x. refl) e in
        ((o, e, refundable_cases o.status s, k), rw (k, refund_order) refl)

-- Where the provider fails, the coupon that was applied stays used although no order is made.
pub place_order_loses_coupon :
    (provider : ℕ) (fresh : NewOrder) (user : ℕ) (input : OrderInput) (title base : ℕ)
    (bundle : Option ℕ) (db db' : Db) (used : AppliedCoupon)
    → apply_coupon input.coupon_code input.course_id fresh.now db ≡ returns used db'
    → (e : AppError) × (place_order provider (λ p. none) fresh user input title base bundle db
        ≡ throws e db')
unfolding place_order place_paid
place_order_loses_coupon provider fresh user input title base bundle db db' used h =
    elim (Option-cases (first (by (λ (u : User). u.id) user) db'.users)) [
      | inl e ↦ (not_found_error, rw (h, place_order) (rw (e, place_paid) refl))
      | inr (u, e) ↦ (other_error, rw (h, place_order) (rw (e, place_paid) refl))
    ]
