-- ===== src/Redis/Breaker/Examples.antt =====
-- The theorems about the breaker at concrete breakers.
use package.ayo_snbt_backend.Common.{ℕ, ◌≡◌, refl, true, false, none, [], ◌∷◌, arith, ◌+◌}
use package.ayo_snbt_backend.Redis.Breaker.{
  closed, opened, half_open, CircuitBreaker, circuit_breaker, resolves, breaker_open, result,
  Request, executes, is_open, record_success, admission, success, failure, run,
}
use package.ayo_snbt_backend.Redis.Breaker.Trips.{
  Inv, run-Inv, trip_refuses, failures_at, successes_close, successes_in_row,
}

abbrev fresh : CircuitBreaker
fresh = record {
  state = closed;
  failures = 0;
  successes = 0;
  opened_at = 0;
  probing = false;
  failure_threshold = 3;
  success_threshold = 2;
  cooldown_ms = 10_000;
}

fresh_default :
    circuit_breaker
      (record { failure_threshold = none; success_threshold = none; cooldown_ms = none })
    ≡ fresh
unfolding circuit_breaker
fresh_default = refl

abbrev tripped : CircuitBreaker
tripped = record fresh { state = opened; opened_at = 500 }

abbrev trying : CircuitBreaker
trying = record fresh { state = half_open; probing = true }

run-Inv_example :
    Inv (run fresh (failure 1 ∷ failure 2 ∷ failure 3 ∷ admission 20_000 ∷ success ∷ []))
run-Inv_example = run-Inv fresh _ (ground arith)

abbrev counted : ℕ → Request ℕ ℕ ℕ
counted now = record { started = now; finished = now + 5; fn = λ w. (w + 1, resolves w) }

trip_refuses_example :
    executes (run fresh (failures_at 3 500)) 0 (counted 600 ∷ counted 10_499 ∷ [])
    ≡ (tripped, 0, breaker_open ∷ breaker_open ∷ [])
trip_refuses_example =
    trip_refuses 2 fresh 500 0 (counted 600 ∷ counted 10_499 ∷ []) refl refl
      (omega arith, (omega arith, tt))

-- A call after the cooldown is let through, and one after it as well.
cooldown_over :
    executes tripped 0 (counted 600 ∷ counted 10_500 ∷ counted 10_501 ∷ [])
    ≡ (record fresh { opened_at = 500 }, 2, breaker_open ∷ result 0 ∷ result 1 ∷ [])
unfolding executes is_open record_success
cooldown_over = refl

successes_close_example : run trying (successes_in_row 2) ≡ fresh
successes_close_example = successes_close 1 trying refl refl
