-- ===== src/Redis/Degradation.antt =====
-- shared/redis/degradation.ts: the health monitor and the gates. The polling timer and the log
-- line are left out; `memoryPercent`, a fraction, is counted in ten-thousandths.
pub mod Hysteresis
pub mod Gates
mod Examples
use package.ayo_snbt_backend.Common.{
  ℕ, ◌+◌, Bool, true, false, ◌&&◌, Option, none, some, List, [], ◌∷◌, ltb, leb, if◌then◌else◌,
  or_else,
}

pub data GateName : Type 0 where
  cache rate_limit queue presence : GateName

pub data GateMode : Type 0 where
  redis db memory outbox reject : GateMode

pub data HealthState : Type 0 where
  healthy stressed down : HealthState

-- The `reason` strings.
pub data Reason : Type 0 where
  redis_healthy redis_under_memory_pressure redis_unavailable : Reason

pub record HealthSample : Type 0 where
  pub is_ok : Bool
  pub memory_percent : Option ℕ

pub record RedisHealthMonitor : Type 0 where
  pub state : HealthState
  pub last_sample : Option HealthSample
  pub consecutive_failures : ℕ
  pub consecutive_recoveries : ℕ
  pub fail_threshold : ℕ
  pub recover_pings : ℕ
  pub stress_memory_percent : ℕ

pub record MonitorOptions : Type 0 where
  pub fail_threshold : Option ℕ
  pub recover_pings : Option ℕ
  pub stress_memory_percent : Option ℕ

pub redis_health_monitor : MonitorOptions → RedisHealthMonitor
redis_health_monitor opts = record {
  state = healthy;
  last_sample = none;
  consecutive_failures = 0;
  consecutive_recoveries = 0;
  fail_threshold = or_else opts.fail_threshold 2;
  recover_pings = or_else opts.recover_pings 3;
  stress_memory_percent = or_else opts.stress_memory_percent 8_500;
}

abbrev pub is_healthy : HealthState → Bool
is_healthy healthy = true
is_healthy stressed = false
is_healthy down = false

abbrev after_failure : RedisHealthMonitor → HealthState
after_failure m =
    if leb m.fail_threshold m.consecutive_failures
    then down
    else (if is_healthy m.state then stressed else m.state)

abbrev after_recovery : RedisHealthMonitor → HealthState
after_recovery m =
    if is_healthy m.state
    then m.state
    else (if leb m.recover_pings m.consecutive_recoveries then healthy else m.state)

-- The sample puts Redis under memory pressure.
abbrev pub is_pressed : RedisHealthMonitor → HealthSample → Bool
is_pressed m sample = leb m.stress_memory_percent (or_else sample.memory_percent 0)

evaluate_counted : RedisHealthMonitor → HealthSample → RedisHealthMonitor
evaluate_counted m sample =
    if sample.is_ok
    then (let m' = record m {
      consecutive_failures = 0;
      consecutive_recoveries = m.consecutive_recoveries + 1;
    } in
        if is_pressed m sample
        then record m' { state = stressed }
        else record m' { state = after_recovery m' })
    else (let m' = record m {
      consecutive_failures = m.consecutive_failures + 1;
      consecutive_recoveries = 0;
    } in
        record m' { state = after_failure m' })

pub evaluate : RedisHealthMonitor → HealthSample → RedisHealthMonitor
unfolding evaluate_counted
evaluate m sample = evaluate_counted (record m { last_sample = some sample }) sample

-- One tick: the sample that was taken, or none where taking it threw.
pub tick : RedisHealthMonitor → Option HealthSample → RedisHealthMonitor
unfolding evaluate
tick m (some sample) = evaluate m sample
tick m none = evaluate m (record { is_ok = false; memory_percent = none })

pub ticks : RedisHealthMonitor → List (Option HealthSample) → RedisHealthMonitor
ticks m [] = m
ticks m (s ∷ ss) = ticks (tick m s) ss

pub record DegradationManager : Type 0 where
  pub cache_monitor : RedisHealthMonitor
  pub rate_limit_monitor : RedisHealthMonitor
  pub queue_monitor : RedisHealthMonitor
  pub presence_monitor : RedisHealthMonitor

pub record GateSnapshot : Type 0 where
  pub mode : GateMode
  pub reason : Reason

gate_in : HealthState → GateName → GateSnapshot
gate_in healthy name = record { mode = redis; reason = redis_healthy }
gate_in stressed cache = record { mode = db; reason = redis_under_memory_pressure }
gate_in stressed rate_limit = record { mode = memory; reason = redis_under_memory_pressure }
gate_in stressed presence = record { mode = memory; reason = redis_under_memory_pressure }
gate_in stressed queue = record { mode = outbox; reason = redis_under_memory_pressure }
gate_in down cache = record { mode = db; reason = redis_unavailable }
gate_in down rate_limit = record { mode = memory; reason = redis_unavailable }
gate_in down presence = record { mode = memory; reason = redis_unavailable }
gate_in down queue = record { mode = reject; reason = redis_unavailable }

-- The `switch` of `gate` covers every state and name, so its last `return` is not reached.
pub gate : RedisHealthMonitor → GateName → GateSnapshot
unfolding gate_in
gate monitor name = gate_in monitor.state name

pub monitor_of : DegradationManager → GateName → RedisHealthMonitor
monitor_of d cache = d.cache_monitor
monitor_of d rate_limit = d.rate_limit_monitor
monitor_of d queue = d.queue_monitor
monitor_of d presence = d.presence_monitor

unfoldable pub get_gate : DegradationManager → GateName → GateSnapshot
unfolding gate monitor_of
get_gate d name = gate (monitor_of d name) name

abbrev is_redis : GateMode → Bool
is_redis redis = true
is_redis db = false
is_redis memory = false
is_redis outbox = false
is_redis reject = false

unfoldable pub can_use_redis : DegradationManager → GateName → Bool
unfolding get_gate
can_use_redis d name = is_redis (get_gate d name).mode

unfoldable pub is_fully_healthy : DegradationManager → Bool
unfolding get_gate
is_fully_healthy d =
    is_redis (get_gate d cache).mode
    && is_redis (get_gate d rate_limit).mode
    && is_redis (get_gate d queue).mode
    && is_redis (get_gate d presence).mode
