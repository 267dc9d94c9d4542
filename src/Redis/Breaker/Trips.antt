-- ===== src/Redis/Breaker/Trips.antt =====
-- What holds of the breaker after any calls, and when it opens and closes.
use package.ayo_snbt_backend.Common.{
  ℕ, zero, suc, ◌+◌, ◌≤◌, ◌<◌, ◌≡◌, true, false, List, [], ◌∷◌, arith, All, map, refl,
}
use package.ayo_snbt_backend.Redis.Breaker.{
  closed, opened, half_open, CircuitBreaker, is_open, Request, resolves, executes, result,
  breaker_open, execute, Event, admission, success, failure, resetting, step, run,
}

pub record Inv (b : CircuitBreaker) : Type 0 where
  pub failures_below : b.failures < b.failure_threshold
  pub successes_below : b.successes < b.success_threshold
  pub probing_half_open : b.probing ≡ true → b.state ≡ half_open
  pub half_open_probing : b.state ≡ half_open → b.probing ≡ true

pub step-Inv : (b : CircuitBreaker) (e : Event) → Inv b → Inv (step b e)
unfolding step
step-Inv b (admission now) h = ground arith
step-Inv b success h = ground arith
step-Inv b (failure now) h = ground arith
step-Inv b resetting h = ground arith

-- From a breaker that satisfies the invariant (both thresholds above its counters, and `probing`
-- set exactly in the half-open state), every sequence of overlapping calls and resets leads to one.
pub run-Inv : (b : CircuitBreaker) (es : List Event) → Inv b → Inv (run b es)
unfolding run
run-Inv b [] h = h
run-Inv b (e ∷ es) h = run-Inv (step b e) es (step-Inv b e h)

abbrev pub failures_at : ℕ → ℕ → List Event
failures_at zero now = []
failures_at (suc n) now = failure now ∷ failures_at n now

failure_counts :
    (b : CircuitBreaker) (now : ℕ)
    → b.state ≡ closed
    → b.failures + 1 < b.failure_threshold
    → step b (failure now) ≡ record b { failures = b.failures + 1 }
unfolding step
failure_counts b now c h = ground arith

failure_opens :
    (b : CircuitBreaker) (now : ℕ)
    → b.state ≡ closed
    → b.failures + 1 ≡ b.failure_threshold
    → step b (failure now)
      ≡ record b { state = opened; opened_at = now; probing = false; failures = 0; successes = 0 }
unfolding step
failure_opens b now c h = ground arith

-- A closed breaker with `n + 1` failures left before its threshold opens, at the time of the last,
-- after `n + 1` failures in a row.
failures_open :
    (n : ℕ) (b : CircuitBreaker) (now : ℕ)
    → b.state ≡ closed
    → b.failures + suc n ≡ b.failure_threshold
    → run b (failures_at (suc n) now)
      ≡ record b { state = opened; opened_at = now; probing = false; failures = 0; successes = 0 }
unfolding run
failures_open zero b now c h = failure_opens b now c (omega arith)
failures_open (suc n) b now c h =
    rw (failure_counts b now c (omega arith), run)
      (failures_open n (record b { failures = b.failures + 1 }) now c (omega arith))

execute-breaker_open :
    {W A E : Type 0} (b : CircuitBreaker) (w : W) (c : Request W A E)
    → b.state ≡ opened
    → c.started < b.opened_at + b.cooldown_ms
    → execute b w c ≡ (b, w, breaker_open)
unfolding execute is_open
execute-breaker_open b w c o h = ground arith

executes-breaker_open :
    {W A E : Type 0} (b : CircuitBreaker) (w : W) (cs : List (Request W A E))
    → b.state ≡ opened
    → All (λ c. c.started < b.opened_at + b.cooldown_ms) cs
    → executes b w cs ≡ (b, w, map (λ c. breaker_open) cs)
unfolding executes
executes-breaker_open b w [] o h = refl
executes-breaker_open b w (c ∷ cs) o (h, hs) =
    rw (execute-breaker_open b w c o h, executes)
      (rw (executes-breaker_open b w cs o hs, executes) refl)

-- From a closed breaker with `n + 1` failures left before its threshold: after `n + 1` failures at
-- the time `now`, every sequence of calls that all begin before `now` plus the cooldown is refused.
-- No `fn` is called, as the world that they act on is left as it is, and the breaker is left open.
pub trip_refuses :
    {W A E : Type 0} (n : ℕ) (b : CircuitBreaker) (now : ℕ) (w : W) (cs : List (Request W A E))
    → b.state ≡ closed
    → b.failures + suc n ≡ b.failure_threshold
    → All (λ c. c.started < now + b.cooldown_ms) cs
    → executes (run b (failures_at (suc n) now)) w cs ≡ (
      record b { state = opened; opened_at = now; probing = false; failures = 0; successes = 0 },
      w,
      map (λ c. breaker_open) cs,
    )
trip_refuses n b now w cs c h hs = rw (failures_open n b now c h) (
    executes-breaker_open
      (record b { state = opened; opened_at = now; probing = false; failures = 0; successes = 0 }) w
      cs refl hs)

-- The first call after the cooldown is let through, and the breaker is then half open.
pub execute_probes :
    {W A E : Type 0} (b : CircuitBreaker) (w w' : W) (c : Request W A E) (a : A)
    → b.state ≡ opened
    → b.probing ≡ false
    → b.opened_at + b.cooldown_ms ≤ c.started
    → c.fn w ≡ (w', resolves a)
    → ((execute b w c).1 ≡ w') × ((execute b w c).2 ≡ result a)
unfolding execute is_open
execute_probes b w w' c a o p h f = ground (arith, f)

-- A half-open breaker admits every call, not the one probe that took it there.
pub half_open-is_open :
    (b : CircuitBreaker) (now : ℕ) → b.state ≡ half_open → is_open b now ≡ (b, false)
unfolding is_open
half_open-is_open b now h = ground arith

abbrev pub successes_in_row : ℕ → List Event
successes_in_row zero = []
successes_in_row (suc n) = success ∷ successes_in_row n

success_counts :
    (b : CircuitBreaker)
    → b.state ≡ half_open
    → b.successes + 1 < b.success_threshold
    → step b success ≡ record b { successes = b.successes + 1 }
unfolding step
success_counts b c h = ground arith

success_closes :
    (b : CircuitBreaker)
    → b.state ≡ half_open
    → b.successes + 1 ≡ b.success_threshold
    → step b success ≡ record b { state = closed; probing = false; failures = 0; successes = 0 }
unfolding step
success_closes b c h = ground arith

-- A half-open breaker with `n + 1` successes left before its threshold is closed, its counters at
-- 0, after `n + 1` successes in a row.
pub successes_close :
    (n : ℕ) (b : CircuitBreaker)
    → b.state ≡ half_open
    → b.successes + suc n ≡ b.success_threshold
    → run b (successes_in_row (suc n))
      ≡ record b { state = closed; probing = false; failures = 0; successes = 0 }
unfolding run
successes_close zero b c h = success_closes b c (omega arith)
successes_close (suc n) b c h =
    rw (success_counts b c (omega arith), run)
      (successes_close n (record b { successes = b.successes + 1 }) c (omega arith))

-- One failure while half open opens the breaker again, from the time of that failure.
pub half_open-failure :
    (b : CircuitBreaker) (now : ℕ)
    → b.state ≡ half_open
    → ((step b (failure now)).state ≡ opened) × ((step b (failure now)).opened_at ≡ now)
unfolding step
half_open-failure b now h = ground arith
