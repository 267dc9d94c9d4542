-- ===== src/Redis/Breaker.antt =====
-- shared/redis/circuit-breaker.ts. A method returns the new breaker; `Date.now()` is an argument.
-- The breaker's name, which only the error message shows, is left out.
pub mod Trips
mod Examples
use package.ayo_snbt_backend.Common.{
  ℕ, ◌+◌, ◌-◌, ◌≡◌, Bool, true, false, not, ◌&&◌, Option, List, [], ◌∷◌, ltb, leb, if◌then◌else◌,
  or_else,
}

pub data BreakerState : Type 0 where
  closed opened half_open : BreakerState

pub record CircuitBreakerOptions : Type 0 where
  pub failure_threshold : Option ℕ
  pub success_threshold : Option ℕ
  pub cooldown_ms : Option ℕ

pub record CircuitBreaker : Type 0 where
  pub state : BreakerState
  pub failures : ℕ
  pub successes : ℕ
  pub opened_at : ℕ
  pub probing : Bool
  pub failure_threshold : ℕ
  pub success_threshold : ℕ
  pub cooldown_ms : ℕ

pub circuit_breaker : CircuitBreakerOptions → CircuitBreaker
circuit_breaker opts = record {
  state = closed;
  failures = 0;
  successes = 0;
  opened_at = 0;
  probing = false;
  failure_threshold = or_else opts.failure_threshold 3;
  success_threshold = or_else opts.success_threshold 2;
  cooldown_ms = or_else opts.cooldown_ms 10_000;
}

-- `now - openedAt >= cooldownMs`; on a clock that runs backwards the difference is negative, as
-- here it is 0.
is_open_in : BreakerState → CircuitBreaker → ℕ → CircuitBreaker × Bool
is_open_in opened b now =
    if leb (b.opened_at + b.cooldown_ms) now && not b.probing
    then (record b { state = half_open; probing = true }, false)
    else (b, true)
is_open_in closed b now = (b, false)
is_open_in half_open b now = (b, false)

pub is_open : CircuitBreaker → ℕ → CircuitBreaker × Bool
unfolding is_open_in
is_open b now = is_open_in b.state b now

open_breaker : CircuitBreaker → ℕ → CircuitBreaker
open_breaker b now = record b {
  state = opened;
  opened_at = now;
  probing = false;
  failures = 0;
  successes = 0;
}

close : CircuitBreaker → CircuitBreaker
close b = record b { state = closed; probing = false; failures = 0; successes = 0 }

record_success_in : BreakerState → CircuitBreaker → CircuitBreaker
unfolding close
record_success_in half_open b =
    let b' = record b { successes = b.successes + 1 } in
    if leb b'.success_threshold b'.successes then close b' else b'
record_success_in closed b = record b { failures = 0 }
record_success_in opened b = b

pub record_success : CircuitBreaker → CircuitBreaker
unfolding record_success_in
record_success b = record_success_in b.state b

count_failure : CircuitBreaker → ℕ → CircuitBreaker
unfolding open_breaker
count_failure b now =
    let b' = record b { failures = b.failures + 1 } in
    if leb b'.failure_threshold b'.failures then open_breaker b' now else b'

record_failure_in : BreakerState → CircuitBreaker → ℕ → CircuitBreaker
unfolding open_breaker count_failure
record_failure_in half_open b now = open_breaker b now
record_failure_in closed b now = count_failure b now
record_failure_in opened b now = count_failure b now

pub record_failure : CircuitBreaker → ℕ → CircuitBreaker
unfolding record_failure_in
record_failure b now = record_failure_in b.state b now

pub reset : CircuitBreaker → CircuitBreaker
unfolding close
reset b = close b

-- What `fn` gives when it is called, and what `execute` then gives.
pub data Call (A E : Type 0) : Type 0 where
  resolves : A → Call A E
  rejects : E → Call A E

pub data Executed (A E : Type 0) : Type 0 where
  result : A → Executed A E
  failed : E → Executed A E
  breaker_open : Executed A E

-- `fn` acts on a world, which a call that is refused leaves as it is. `started` and `finished` are
-- the times at which the call begins and `fn` settles.
pub record Request (W A E : Type 0) : Type 0 where
  pub started : ℕ
  pub finished : ℕ
  pub fn : W → W × Call A E

module _ {W A E : Type 0} where
  abbrev settle : CircuitBreaker → ℕ → W × Call A E → CircuitBreaker × W × Executed A E
  settle b finished (w, resolves a) = (record_success b, w, result a)
  settle b finished (w, rejects e) = (record_failure b finished, w, failed e)

  pub execute : CircuitBreaker → W → Request W A E → CircuitBreaker × W × Executed A E
  execute b w c =
      let (b', refused) = is_open b c.started in
      if refused then (b', w, breaker_open) else settle b' c.finished (c.fn w)

  -- Calls made one after the other.
  pub executes :
      CircuitBreaker → W → List (Request W A E) → CircuitBreaker × W × List (Executed A E)
  unfolding execute
  executes b w [] = (b, w, [])
  executes b w (c ∷ cs) =
      let (b', w', r) = execute b w c in
      let (b'', w'', rs) = executes b' w' cs in (b'', w'', r ∷ rs)

-- Calls overlap: an admission, and the success or failure of any call admitted before.
pub data Event : Type 0 where
  admission : ℕ → Event
  success : Event
  failure : ℕ → Event
  resetting : Event

pub step : CircuitBreaker → Event → CircuitBreaker
unfolding is_open record_success record_failure reset
step b (admission now) = (is_open b now).0
step b success = record_success b
step b (failure now) = record_failure b now
step b resetting = reset b

pub run : CircuitBreaker → List Event → CircuitBreaker
run b [] = b
run b (e ∷ es) = run (step b e) es
