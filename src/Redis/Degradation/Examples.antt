-- ===== src/Redis/Degradation/Examples.antt =====
-- The theorems about the monitor and the gates at concrete samples.
use package.ayo_snbt_backend.Common.{◌≡◌, refl, true, false, none, some}
use package.ayo_snbt_backend.Redis.Degradation.{
  healthy, down, HealthSample, RedisHealthMonitor, DegradationManager, ticks,
}
use package.ayo_snbt_backend.Redis.Degradation.Hysteresis.{repeat, ticks_recover}

abbrev good : HealthSample
good = record { is_ok = true; memory_percent = some 4_000 }

abbrev pressed : HealthSample
pressed = record { is_ok = true; memory_percent = some 9_000 }

abbrev bad : HealthSample
bad = record { is_ok = false; memory_percent = none }

abbrev fallen : RedisHealthMonitor
fallen = record {
  state = down;
  last_sample = some bad;
  consecutive_failures = 2;
  consecutive_recoveries = 0;
  fail_threshold = 2;
  recover_pings = 3;
  stress_memory_percent = 8_500;
}

abbrev fresh : RedisHealthMonitor
fresh = record fallen { state = healthy; last_sample = none; consecutive_failures = 0 }

ticks_recover_example :
    ((ticks fallen (repeat 2 good)).state ≡ down) × ((ticks fallen (repeat 3 good)).state ≡ healthy)
ticks_recover_example = ticks_recover 2 fallen good (refl, refl) (λ e. cc) refl

abbrev manager : DegradationManager
manager = record {
  cache_monitor = fresh;
  rate_limit_monitor = fresh;
  queue_monitor = fallen;
  presence_monitor = fresh;
}
