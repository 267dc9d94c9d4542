-- ===== src/Payments/Status.antt =====
-- The life of an order, whatever calls are made.
use mathlib.Core.Path.{subst₂}
use package.ayo_snbt_backend.Common.{
  ℕ, ◌≡◌, refl, ◌∙◌, subst, ◌⊎◌, inl, inr, Option, none, some, List, [], ◌∷◌,
}
use package.ayo_snbt_backend.Common.Keys.{Distinct}
use package.ayo_snbt_backend.Payments.Data.{OrderStatus, refunded, Order, Db}
use package.ayo_snbt_backend.Payments.Orders.{CreatePayment}
use package.ayo_snbt_backend.Payments.Moves.{
  order_id, order_at, ◌⟶◌, pay, pay_created, pay_expired, fulfil, refund, refund_fulfilled, expire,
  Moves, Change-Moves, Change-Distinct,
}
use package.ayo_snbt_backend.Payments.Calls.{step-Change}
use package.ayo_snbt_backend.Payments.Step.{Call, step, run, IsFresh}

infix 40 ◌⟶*◌
pub data ◌⟶*◌ : OrderStatus → OrderStatus → Type 0 where
  here : {s : OrderStatus} → s ⟶* s
  along : {s t u : OrderStatus} → s ⟶ t → t ⟶* u → s ⟶* u

-- The same order, its status moved along edges.
pub record Becomes (o o' : Order) : Type 0 where
  pub same_id : o'.id ≡ o.id
  pub same_user : o'.user_id ≡ o.user_id
  pub same_number : o'.order_number ≡ o.order_number
  pub same_amount : o'.amount_cents ≡ o.amount_cents
  pub path : o.status ⟶* o'.status

abbrev pub Reaches : Option Order → Option Order → Type 0
Reaches none o' = Unit
Reaches (some o) none = ⊥
Reaches (some o) (some o') = Becomes o o'

Reaches-refl : (o : Option Order) → Reaches o o
Reaches-refl none = tt
Reaches-refl (some o) = record {
  same_id = refl;
  same_user = refl;
  same_number = refl;
  same_amount = refl;
  path = here;
}

extend : {s t u : OrderStatus} → (t ≡ s) ⊎ (s ⟶ t) → t ⟶* u → s ⟶* u
extend {u = u} (inl e) p = subst (λ s. s ⟶* u) e p
extend (inr e) p = along e p

Moves-Reaches : (a b c : Option Order) → Moves a b → Reaches b c → Reaches a c
Moves-Reaches none b c m r = tt
Moves-Reaches (some o) none c m r = absurd m
Moves-Reaches (some o) (some o') none m r = absurd r
Moves-Reaches (some o) (some o') (some o'') m r = record {
  same_id = r.same_id ∙ m.same_id;
  same_user = r.same_user ∙ m.same_user;
  same_number = r.same_number ∙ m.same_number;
  same_amount = r.same_amount ∙ m.same_amount;
  path = extend m.edge r.path;
}

module _ (provider : ℕ) (create_payment : CreatePayment) where
  -- Each new order of the run gets an id that no order has by then.
  abbrev pub AllFresh : Db → List Call → Type 0
  AllFresh db [] = Unit
  AllFresh db (c ∷ cs) = IsFresh db c × AllFresh (step provider create_payment db c) cs

  -- Where the ids of the orders are distinct and every call that creates an order brings a new
  -- one: after any calls, returned or thrown, every order is still there, with the same user,
  -- number and amount, and its status has moved along edges of the order's life only.
  pub run-Reaches :
      (db : Db) (cs : List Call) (i : ℕ)
      → Distinct order_id db.orders
      → AllFresh db cs
      → Reaches (order_at db i) (order_at (run provider create_payment db cs) i)
  unfolding run
  run-Reaches db [] i d new = Reaches-refl (order_at db i)
  run-Reaches db (c ∷ cs) i d new =
      let change = step-Change provider create_payment db c d new.0 in
      Moves-Reaches _ _ _ (Change-Moves _ _ i change)
        (run-Reaches (step provider create_payment db c) cs i (Change-Distinct _ _ change d) new.1)

refunded_stays : {s t : OrderStatus} → s ⟶* t → s ≡ refunded → t ≡ refunded
refunded_stays here e = e
refunded_stays (along pay p) e = cc
refunded_stays (along pay_created p) e = cc
refunded_stays (along pay_expired p) e = cc
refunded_stays (along fulfil p) e = cc
refunded_stays (along refund p) e = refunded_stays p refl
refunded_stays (along refund_fulfilled p) e = refunded_stays p refl
refunded_stays (along expire p) e = cc

module _ (provider : ℕ) (create_payment : CreatePayment) where
  -- A refunded order stays refunded: no webhook, fulfilment, refund or expiry takes it elsewhere.
  pub run_refunded :
      (db : Db) (cs : List Call) (i : ℕ) (o : Order)
      → Distinct order_id db.orders
      → AllFresh provider create_payment db cs
      → order_at db i ≡ some o
      → o.status ≡ refunded
      → (o' : Order) × (order_at (run provider create_payment db cs) i ≡ some o')
        × (o'.status ≡ refunded)
  run_refunded db cs i o d new found r =
      at_end (order_at (run provider create_payment db cs) i) refl
    where
      reached :
          (q : Option Order)
          → order_at (run provider create_payment db cs) i ≡ q
          → Reaches (some o) q
      reached q e = subst₂ Reaches found e (run-Reaches provider create_payment db cs i d new)

      at_end :
          (q : Option Order)
          → order_at (run provider create_payment db cs) i ≡ q
          → (o' : Order) × (order_at (run provider create_payment db cs) i ≡ some o')
            × (o'.status ≡ refunded)
      at_end none e = absurd (reached none e)
      at_end (some o') e = (o', e, refunded_stays (reached (some o') e).path r)
