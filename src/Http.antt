-- ===== src/Http.antt =====
-- shared/http: the idempotency plugin and the fallback store of the rate limiter.
pub mod Idempotency
pub mod RateLimit
mod Examples
