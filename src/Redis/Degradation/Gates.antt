-- ===== src/Redis/Degradation/Gates.antt =====
-- Which gate stands open in which state.
use package.ayo_snbt_backend.Common.{◌≡◌, ◌↔◌, true, arith}
use package.ayo_snbt_backend.Redis.Degradation.{
  GateName, cache, rate_limit, queue, presence, outbox, reject, healthy, stressed, down,
  DegradationManager, monitor_of, get_gate, can_use_redis, is_fully_healthy,
}

-- A subsystem uses Redis exactly when its own monitor is healthy.
pub can_use_redis_iff :
    (d : DegradationManager) (name : GateName)
    → (can_use_redis d name ≡ true) ↔ ((monitor_of d name).state ≡ healthy)
unfolding can_use_redis
can_use_redis_iff d cache = ground arith
can_use_redis_iff d rate_limit = ground arith
can_use_redis_iff d queue = ground arith
can_use_redis_iff d presence = ground arith

-- The manager is fully healthy exactly when every gate may use Redis.
pub is_fully_healthy_iff :
    (d : DegradationManager)
    → (is_fully_healthy d ≡ true) ↔ ((name : GateName) → can_use_redis d name ≡ true)
unfolding is_fully_healthy can_use_redis
is_fully_healthy_iff d = (
  λ h. elim [
    | cache ↦ ground arith
    | rate_limit ↦ ground arith
    | queue ↦ ground arith
    | presence ↦ ground arith
  ],
  λ h. ground (arith, h cache, h rate_limit, h queue, h presence),
)

-- Critical jobs go to the outbox exactly while the queue's monitor is stressed, and are refused
-- exactly while it is down.
pub queue_gate :
    (d : DegradationManager)
    → (((get_gate d queue).mode ≡ outbox) ↔ (d.queue_monitor.state ≡ stressed))
      × (((get_gate d queue).mode ≡ reject) ↔ (d.queue_monitor.state ≡ down))
unfolding get_gate
queue_gate d = ground arith
