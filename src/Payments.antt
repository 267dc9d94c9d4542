-- ===== src/Payments.antt =====
-- modules/payments: orders, coupons, the provider's webhook and fulfilment.
pub mod Data
pub mod CouponCode
pub mod Coupons
pub mod Orders
pub mod Bundles
pub mod Webhook
pub mod Step
pub mod Adds
pub mod Moves
pub mod Calls
pub mod Status
pub mod Requests
pub mod CouponLimit
pub mod Amounts
pub mod Effects
mod Examples
