-- ===== src/Payments/Webhook.antt =====
-- `handleWebhook` of modules/payments/service.ts. Verification belongs to the provider adapter.
use package.ayo_snbt_backend.Common.{
  ℕ, Bool, true, false, not, Option, some, [], ◌∷◌, ◌++◌, if◌then◌else◌, first, update, any,
}
use package.ayo_snbt_backend.Common.Action.{
  Action, pure, throw_if, or_throw, gets, modify, ◌>>=◌, ◌>>◌, bad_request_error, not_found_error,
  other_error, webhook_signature_invalid,
}
use package.ayo_snbt_backend.Common.Keys.{by}
use package.ayo_snbt_backend.Payments.Data.{
  OrderStatus, paid, fulfilled, refunded, Order, PaymentEvent, fulfill, Db,
}

-- What `verifyWebhook` reads off an authentic payload.
pub record Verified : Type 0 where
  pub order_number : ℕ
  pub is_paid : Bool
  pub event_id : ℕ

pub record WebhookResult : Type 0 where
  pub processed : Bool
  pub order_id : ℕ
  pub status : OrderStatus

-- `o.status === "paid" || o.status === "fulfilled" || o.status === "refunded"`.
abbrev pub is_advanced : OrderStatus → Bool
is_advanced paid = true
is_advanced fulfilled = true
is_advanced refunded = true
is_advanced _ = false

abbrev pub set_paid : ℕ → Order → Order
set_paid now x = record x { status = paid; paid_at = some now; updated_at = now }

unfoldable pub mark_paid : Order → ℕ → Db → Db
mark_paid o now db = record db {
  orders = update (by (λ (x : Order). x.id) o.id) (set_paid now) db.orders;
  jobs = db.jobs ++ fulfill o.id ∷ [];
}

module _ (provider : ℕ) where
  -- From the insert of the event on; the event's id is unique.
  unfoldable pub process : Verified → Order → ℕ → Action Db WebhookResult
  unfolding mark_paid
  process v o now = do
    taken ← gets (λ db. any (by (λ (e : PaymentEvent). e.event_id) v.event_id) db.payment_events)
    throw_if taken other_error
    let event : PaymentEvent = record {
      event_id = v.event_id;
      order_id = o.id;
      provider = provider;
      is_paid = v.is_paid;
    }
    modify (λ db. record db { payment_events = db.payment_events ++ event ∷ [] })
    if not v.is_paid
        then pure (record { processed = true; order_id = o.id; status = o.status })
        else (if is_advanced o.status
            then pure (record { processed = true; order_id = o.id; status = o.status })
            else (do
              modify (mark_paid o now)
              pure (record { processed = true; order_id = o.id; status = paid })))

  -- From the lookup of the order on.
  unfoldable pub deliver : Verified → ℕ → Action Db WebhookResult
  unfolding process
  deliver v now = do
    orders ← gets (λ db. db.orders)
    o ← or_throw (first (by (λ (x : Order). x.order_number) v.order_number) orders) not_found_error
    seen ← gets (λ db. any (by (λ (e : PaymentEvent). e.event_id) v.event_id) db.payment_events)
    if seen
        then pure (record { processed = false; order_id = o.id; status = o.status })
        else process v o now

  -- `verify` is the provider's: `none` for a payload whose signature is wrong.
  unfoldable pub handle_webhook :
      {Payload : Type 0} → (Payload → Option Verified) → Payload → ℕ → Action Db WebhookResult
  unfolding deliver
  handle_webhook verify parsed now = do
    v ← or_throw (verify parsed) (bad_request_error webhook_signature_invalid)
    deliver v now
