-- ===== src/Redis.antt =====
-- shared/redis: the circuit breaker and the degradation manager.
pub mod Breaker
pub mod Degradation
