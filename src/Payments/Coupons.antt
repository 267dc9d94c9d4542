-- ===== src/Payments/Coupons.antt =====
-- The coupon part of `createOrder`, and `createCoupon`, of modules/payments/service.ts.
use package.ayo_snbt_backend.Common.Text.{Text, text_eq}
use package.ayo_snbt_backend.Common.{
  ℕ, ◌+◌, ◌-◌, ◌*◌, ◌/◌, Bool, true, false, not, ◌&&◌, ◌||◌, Option, none, some, List, [], ◌∷◌,
  ◌++◌, ltb, leb, ◌==◌, first, update, any,
}
use package.ayo_snbt_backend.Common.Action.{
  Action, pure, throw_if, or_throw, gets, modify, ◌>>=◌, ◌>>◌, bad_request_error, other_error,
  validation_error, coupon_invalid, coupon_expired, coupon_exhausted,
}
use package.ayo_snbt_backend.Payments.Data.{Coupon, Db}
use package.ayo_snbt_backend.Payments.CouponCode.{normalize, is_valid_code}

-- `coupon.expiresAt && coupon.expiresAt < now`.
unfoldable pub is_past : Option ℕ → ℕ → Bool
is_past none now = false
is_past (some t) now = ltb t now

-- `coupon.maxUses !== null && coupon.usesCount >= coupon.maxUses`.
unfoldable pub is_exhausted : Option ℕ → ℕ → Bool
is_exhausted none uses = false
is_exhausted (some m) uses = leb m uses

-- `coupon.courseId && coupon.courseId !== targetCourseId`.
unfoldable pub is_out_of_scope : Option ℕ → Option ℕ → Bool
is_out_of_scope none target = false
is_out_of_scope (some c) none = true
is_out_of_scope (some c) (some t) = not (c == t)

-- The `where` of the increment: the coupon, and `uses_count < maxUses` for the limit that was read
-- before. The row's own count is the one at the time of the write.
unfoldable pub bumps : Coupon → Coupon → Bool
unfolding is_exhausted
bumps read row = (row.id == read.id) && not (is_exhausted read.max_uses row.uses_count)

unfoldable pub use_once : Coupon → Coupon
use_once row = record row { uses_count = row.uses_count + 1 }

unfoldable pub bump_coupon : Coupon → List Coupon → List Coupon
unfolding bumps use_once
bump_coupon read = update (bumps read) use_once

-- A coupon code given by the client; the empty string is no code.
pub data AppliedCoupon : Type 0 where
  no_coupon : AppliedCoupon
  applied : Text → ℕ → AppliedCoupon

unfoldable pub percent_of : AppliedCoupon → ℕ
percent_of no_coupon = 0
percent_of (applied code percent) = percent

unfoldable pub redeem : Text → Option ℕ → ℕ → Action Db AppliedCoupon
unfolding is_past is_exhausted is_out_of_scope bump_coupon
redeem code target now = do
  coupons ← gets (λ db. db.coupons)
  coupon ←
      or_throw (first (λ c. text_eq c.code (normalize code)) coupons)
        (bad_request_error coupon_invalid)
  throw_if (is_past coupon.expires_at now) (bad_request_error coupon_expired)
  throw_if (is_exhausted coupon.max_uses coupon.uses_count) (bad_request_error coupon_exhausted)
  throw_if (is_out_of_scope coupon.course_id target) (bad_request_error coupon_invalid)
  bumped ← gets (λ db. any (bumps coupon) db.coupons)
  modify (λ db. record db { coupons = bump_coupon coupon db.coupons })
  throw_if (not bumped) (bad_request_error coupon_exhausted)
  pure (applied coupon.code coupon.percent_off)

unfoldable pub apply_coupon : Option Text → Option ℕ → ℕ → Action Db AppliedCoupon
unfolding redeem
apply_coupon none target now = pure no_coupon
apply_coupon (some []) target now = pure no_coupon
apply_coupon (some (c ∷ code)) target now = redeem (c ∷ code) target now

-- `Math.round(base * (100 - percentOff) / 100)`. A stored percentage is at most 100.
unfoldable pub discounted : ℕ → ℕ → ℕ
discounted base percent = (2 * (base * (100 - percent)) + 100) / 200

pub record CouponInput : Type 0 where
  pub code : Text
  pub percent_off : ℕ
  pub max_uses : Option ℕ
  pub course_id : Option ℕ
  pub expires_at : Option ℕ

abbrev pub is_zero : Option ℕ → Bool
is_zero none = false
is_zero (some m) = m == 0

-- `insert(coupons)`: a code that is in the table already breaks the unique index.
unfoldable pub insert_coupon : Coupon → Action Db Coupon
insert_coupon row = do
  taken ← gets (λ db. any (λ c. text_eq c.code row.code) db.coupons)
  throw_if taken other_error
  modify (λ db. record db { coupons = db.coupons ++ row ∷ [] })
  pure row

unfoldable pub new_coupon : ℕ → CouponInput → Coupon
new_coupon id input = record {
  id = id;
  code = normalize input.code;
  percent_off = input.percent_off;
  max_uses = input.max_uses;
  uses_count = 0;
  course_id = input.course_id;
  expires_at = input.expires_at;
}

-- `createCoupon`. The audit line is left out; percentages and limits are natural numbers.
unfoldable pub create_coupon : ℕ → CouponInput → Action Db Coupon
unfolding new_coupon
create_coupon id input = do
  throw_if (not (is_valid_code (normalize input.code))) (bad_request_error validation_error)
  throw_if (ltb input.percent_off 1 || ltb 100 input.percent_off)
      (bad_request_error validation_error)
  throw_if (is_zero input.max_uses) (bad_request_error validation_error)
  insert_coupon (new_coupon id input)
