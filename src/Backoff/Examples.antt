-- ===== src/Backoff/Examples.antt =====
-- Three attempts of which the last succeeds.
use package.ayo_snbt_backend.Common.{ℕ, zero, suc, ◌≡◌, refl, true, none, some, arith}
use package.ayo_snbt_backend.Backoff.{
  BackoffOptions, equal_jitter, Reply, value, failure, returned, retry_with_backoff,
}
use package.ayo_snbt_backend.Backoff.Bounds.{retry-returns}

abbrev flaky : ℕ → Reply ℕ
flaky zero = failure 0
flaky (suc zero) = failure 7
flaky (suc (suc zero)) = failure 8
flaky (suc (suc (suc n))) = value 42

abbrev options : BackoffOptions
options = record { base_delay_ms = none; max_delay_ms = some 1_500; jitter = some equal_jitter }

retry-returns_example :
    ((retry_with_backoff 4 (λ e. true) options (λ n. 500) flaky).ending ≡ returned 42)
    × ((retry_with_backoff 4 (λ e. true) options (λ n. 500) flaky).calls ≡ 3)
retry-returns_example =
    retry-returns 4 (λ e. true) options (λ n. 500) flaky 2 42 (omega arith)
      ((7, refl, refl), ((8, refl, refl), refl))
