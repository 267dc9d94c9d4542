-- ===== src/Payments/Moves.antt =====
-- The edges of an order's life, and a write to one order as a move along an edge.
use package.ayo_snbt_backend.Common.{
  ℕ, ◌≡◌, refl, subst, ◌⊎◌, inl, inr, Bool, true, false, Option, none, some, List, [], ◌∷◌, ◌++◌,
  arith, first, any, update, ◌==◌, if◌then◌else◌, Bool-cases, first_of_none,
}
use package.ayo_snbt_backend.Common.Keys.{
  by, Distinct, first-by-append, first-by-update, Distinct-update, Distinct-append,
}
use package.ayo_snbt_backend.Payments.Data.{
  OrderStatus, created, pending, paid, fulfilled, refunded, expired, Order, Db,
}
use package.ayo_snbt_backend.Payments.Orders.{is_stale, is_refundable, is_paid}
use package.ayo_snbt_backend.Payments.Webhook.{is_advanced}

abbrev pub order_id : Order → ℕ
order_id o = o.id

abbrev pub order_at : Db → ℕ → Option Order
order_at db i = first (by order_id i) db.orders

-- The edges of the order's life. A paid webhook also revives an order that has expired.
infix 40 ◌⟶◌
pub data ◌⟶◌ : OrderStatus → OrderStatus → Type 0 where
  pay : pending ⟶ paid
  pay_created : created ⟶ paid
  pay_expired : expired ⟶ paid
  fulfil : paid ⟶ fulfilled
  refund : paid ⟶ refunded
  refund_fulfilled : fulfilled ⟶ refunded
  expire : pending ⟶ expired

-- The same order, its status kept or moved along one edge.
pub record Follows (o o' : Order) : Type 0 where
  pub same_id : o'.id ≡ o.id
  pub same_user : o'.user_id ≡ o.user_id
  pub same_number : o'.order_number ≡ o.order_number
  pub same_amount : o'.amount_cents ≡ o.amount_cents
  pub edge : (o'.status ≡ o.status) ⊎ (o.status ⟶ o'.status)

abbrev pub Moves : Option Order → Option Order → Type 0
Moves none o' = Unit
Moves (some o) none = ⊥
Moves (some o) (some o') = Follows o o'

pub Moves-refl : (o : Option Order) → Moves o o
Moves-refl none = tt
Moves-refl (some o) = record {
  same_id = refl;
  same_user = refl;
  same_number = refl;
  same_amount = refl;
  edge = inl refl;
}

kept : (o : Option Order) → Moves o (elim o [ none ↦ none | some a ↦ some a ])
kept none = tt
kept (some o) = Moves-refl (some o)

apply_if-Moves :
    (f : Order → Order) (o : Order) (q : Option Order) (b : Bool)
    → (b ≡ true → q ≡ some o)
    → Follows o (f o)
    → Moves q (elim q [ none ↦ none | some a ↦ some (if b then f a else a) ])
apply_if-Moves f o none b found follows = tt
apply_if-Moves f o (some a) true found follows = let p : a ≡ o = cc (found refl) in rw p follows
apply_if-Moves f o (some a) false found follows = Moves-refl (some a)

-- A write to the order found by its id moves that order, if it follows an edge, and no other.
pub update-Moves :
    (f : Order → Order) (xs : List Order) (o : Order) (j i : ℕ)
    → ((x : Order) → (f x).id ≡ x.id)
    → first (by order_id j) xs ≡ some o
    → Follows o (f o)
    → Moves (first (by order_id i) xs) (first (by order_id i) (update (by order_id j) f xs))
update-Moves f xs o j i keeps found follows = rw (first-by-update order_id j i f xs keeps) (
    apply_if-Moves f o (first (by order_id i) xs) (i == j)
      (λ e. let p : i ≡ j = ground arith in rw p found) follows)

pub refundable_edge : (s : OrderStatus) → is_refundable s ≡ true → (refunded ≡ s) ⊎ (s ⟶ refunded)
refundable_edge paid h = inr refund
refundable_edge fulfilled h = inr refund_fulfilled
refundable_edge refunded h = inl refl
refundable_edge created h = cc
refundable_edge pending h = cc
refundable_edge expired h = cc

pub stale_edge :
    (o : Order) (now : ℕ) (s : OrderStatus)
    → o.status ≡ s
    → is_stale o now ≡ true
    → o.status ⟶ expired
unfolding is_stale
stale_edge o now pending e h = rw e expire
stale_edge o now created e h = absurd (ground arith)
stale_edge o now paid e h = absurd (ground arith)
stale_edge o now fulfilled e h = absurd (ground arith)
stale_edge o now refunded e h = absurd (ground arith)
stale_edge o now expired e h = absurd (ground arith)

pub unpaid_edge : (s : OrderStatus) → is_advanced s ≡ false → s ⟶ paid
unpaid_edge created h = pay_created
unpaid_edge pending h = pay
unpaid_edge expired h = pay_expired
unpaid_edge paid h = cc
unpaid_edge fulfilled h = cc
unpaid_edge refunded h = cc

pub paid_edge : (s : OrderStatus) → is_paid s ≡ true → s ⟶ fulfilled
paid_edge paid h = fulfil
paid_edge created h = cc
paid_edge pending h = cc
paid_edge fulfilled h = cc
paid_edge refunded h = cc
paid_edge expired h = cc

abbrev pub follows_by :
    {o o' : Order}
    → o'.id ≡ o.id
    → o'.user_id ≡ o.user_id
    → o'.order_number ≡ o.order_number
    → o'.amount_cents ≡ o.amount_cents
    → (o'.status ≡ o.status) ⊎ (o.status ⟶ o'.status)
    → Follows o o'
follows_by a b c d e = record {
  same_id = a;
  same_user = b;
  same_number = c;
  same_amount = d;
  edge = e;
}

-- What a call does to the table of orders: nothing, a write to the one order with an id, or a new
-- pending order under a new id.
pub data Change (xs ys : List Order) : Type 0 where
  same : ys ≡ xs → Change xs ys
  moved :
      (f : Order → Order) (j : ℕ) (o : Order)
      → ((x : Order) → (f x).id ≡ x.id)
      → first (by order_id j) xs ≡ some o
      → Follows o (f o)
      → ys ≡ update (by order_id j) f xs
      → Change xs ys
  added :
      (o : Order)
      → any (by order_id o.id) xs ≡ false
      → o.status ≡ pending
      → ys ≡ xs ++ o ∷ []
      → Change xs ys

absent :
    (xs : List Order) (k i : ℕ)
    → any (by order_id k) xs ≡ false
    → k ≡ i
    → first (by order_id i) xs ≡ none
absent xs k i new p =
    first_of_none (by order_id i) xs (subst (λ n. any (by order_id n) xs ≡ false) p new)

pub Change-Moves :
    (xs ys : List Order) (i : ℕ)
    → Change xs ys
    → Moves (first (by order_id i) xs) (first (by order_id i) ys)
Change-Moves xs ys i (same e) = rw e (Moves-refl (first (by order_id i) xs))
Change-Moves xs ys i (moved f j o keeps found follows e) =
    rw e (update-Moves f xs o j i keeps found follows)
Change-Moves xs ys i (added o new s e) =
    rw (e, first-by-append order_id i xs o new)
      (elim (Bool-cases (o.id == i)) [
        | inl t ↦ rw (absent xs o.id i new (ground arith)) tt
        | inr t ↦ rw t (Moves-refl (first (by order_id i) xs))
      ])

pub Change-Distinct :
    (xs ys : List Order) → Change xs ys → Distinct order_id xs → Distinct order_id ys
Change-Distinct xs ys (same e) d = rw e d
Change-Distinct xs ys (moved f j o keeps found follows e) d =
    rw e (Distinct-update order_id (by order_id j) f xs keeps d)
Change-Distinct xs ys (added o new s e) d = rw e (Distinct-append order_id xs o new d)
