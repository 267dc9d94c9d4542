-- ===== src/Redis/Degradation/Hysteresis.antt =====
-- How the monitor leaves and regains the healthy state.
use package.ayo_snbt_backend.Common.{
  ℕ, zero, suc, ◌+◌, ◌≤◌, ◌<◌, ◌≡◌, refl, ◌≢◌, ◌⊎◌, true, false, Option, some, List, [], ◌∷◌, arith,
}
use package.ayo_snbt_backend.Redis.Degradation.{
  healthy, stressed, down, HealthSample, RedisHealthMonitor, is_pressed, evaluate, tick, ticks,
}

abbrev pub IsGood : RedisHealthMonitor → HealthSample → Type 0
IsGood m s = (s.is_ok ≡ true) × (is_pressed m s ≡ false)

abbrev pub IsPressed : RedisHealthMonitor → HealthSample → Type 0
IsPressed m s = (s.is_ok ≡ true) × (is_pressed m s ≡ true)

abbrev pub repeat : ℕ → HealthSample → List (Option HealthSample)
repeat zero s = []
repeat (suc n) s = some s ∷ repeat n s

-- A sample leaves the monitor healthy exactly when it is good and the monitor was healthy already
-- or has now seen `recover_pings` recoveries in a row.
pub evaluate-healthy :
    (m : RedisHealthMonitor) (s : HealthSample)
    → (((evaluate m s).state ≡ healthy)
        → IsGood m s × ((m.state ≡ healthy) ⊎ (m.recover_pings ≤ m.consecutive_recoveries + 1)))
      × (IsGood m s × ((m.state ≡ healthy) ⊎ (m.recover_pings ≤ m.consecutive_recoveries + 1))
          → (evaluate m s).state ≡ healthy)
unfolding evaluate
evaluate-healthy m s = (λ h. ground arith, λ h. ground arith)

good_counts :
    (m : RedisHealthMonitor) (s : HealthSample)
    → IsGood m s
    → m.state ≢ healthy
    → m.consecutive_recoveries + 1 < m.recover_pings
    → tick m (some s) ≡ record m {
      last_sample = some s;
      consecutive_failures = 0;
      consecutive_recoveries = m.consecutive_recoveries + 1;
    }
unfolding tick
good_counts m s g u h = ground arith

good_heals :
    (m : RedisHealthMonitor) (s : HealthSample)
    → IsGood m s
    → m.recover_pings ≤ m.consecutive_recoveries + 1
    → (tick m (some s)).state ≡ healthy
unfolding tick
good_heals m s g h = ground arith

pressed_counts :
    (m : RedisHealthMonitor) (p : HealthSample)
    → IsPressed m p
    → tick m (some p) ≡ record m {
      state = stressed;
      last_sample = some p;
      consecutive_failures = 0;
      consecutive_recoveries = m.consecutive_recoveries + 1;
    }
unfolding tick
pressed_counts m p g = ground arith

bad_counts :
    (m : RedisHealthMonitor) (s : HealthSample)
    → s.is_ok ≡ false
    → ((tick m (some s)).consecutive_failures ≡ m.consecutive_failures + 1)
      × ((tick m (some s)).fail_threshold ≡ m.fail_threshold)
      × (m.fail_threshold ≤ m.consecutive_failures + 1 → (tick m (some s)).state ≡ down)
unfolding tick
bad_counts m s f = ground arith

-- A monitor that is not healthy stays as it is through good samples until they make up
-- `recover_pings` recoveries in a row, and the last of these makes it healthy.
pub ticks_recover :
    (n : ℕ) (m : RedisHealthMonitor) (s : HealthSample)
    → IsGood m s
    → m.state ≢ healthy
    → m.consecutive_recoveries + suc n ≡ m.recover_pings
    → ((ticks m (repeat n s)).state ≡ m.state) × ((ticks m (repeat (suc n) s)).state ≡ healthy)
unfolding ticks
ticks_recover zero m s g u h = (refl, good_heals m s g (omega arith))
ticks_recover (suc n) m s g u h =
    rw (good_counts m s g u (omega arith), ticks) (ticks_recover n _ s g u (omega arith))

-- Samples under memory pressure are not healthy and count as recoveries all the same: after them
-- one good sample makes the monitor healthy, where `n + 1` make up `recover_pings`.
pub pressure_counts :
    (n : ℕ) (m : RedisHealthMonitor) (p s : HealthSample)
    → IsPressed m p
    → IsGood m s
    → m.recover_pings ≤ m.consecutive_recoveries + suc n
    → (tick (ticks m (repeat n p)) (some s)).state ≡ healthy
unfolding ticks
pressure_counts zero m p s hp hs h = good_heals m s hs h
pressure_counts (suc n) m p s hp hs h =
    rw (pressed_counts m p hp, ticks) (pressure_counts n _ p s hp hs (omega arith))

-- `fail_threshold` failures in a row take the monitor down, from any state.
pub failures_take_down :
    (n : ℕ) (m : RedisHealthMonitor) (s : HealthSample)
    → s.is_ok ≡ false
    → m.fail_threshold ≤ m.consecutive_failures + suc n
    → (ticks m (repeat (suc n) s)).state ≡ down
unfolding ticks
failures_take_down zero m s f h = (bad_counts m s f).2 h
failures_take_down (suc n) m s f h =
    failures_take_down n (tick m (some s)) s f (omega (arith, bad_counts m s f))
