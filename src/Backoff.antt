-- ===== src/Backoff.antt =====
-- shared/backoff/retry.ts. The operation is the list of what its calls give, in order, and the random
-- draws are in thousandths; delays are milliseconds.
pub mod Bounds
mod Examples
use package.ayo_snbt_backend.Common.{
  ℕ, zero, suc, ◌+◌, ◌-◌, ◌*◌, ◌/◌, ◌^◌, min, Bool, true, false, not, Option, none, some, List, [],
  ◌∷◌, ◌++◌, leb, if◌then◌else◌, or_else,
}

pub data JitterMode : Type 0 where
  full_jitter equal_jitter no_jitter : JitterMode

pub record BackoffOptions : Type 0 where
  pub base_delay_ms : Option ℕ
  pub max_delay_ms : Option ℕ
  pub jitter : Option JitterMode

unfoldable pub exponential : ℕ → BackoffOptions → ℕ
exponential attempt opts =
    min (or_else opts.max_delay_ms 30_000) (or_else opts.base_delay_ms 1_000 * 2 ^ (attempt - 1))

-- The `switch`; `draw` is below 1_000. Half a millisecond counts as none.
unfoldable pub jittered : JitterMode → ℕ → ℕ → ℕ
jittered no_jitter draw e = e
jittered equal_jitter draw e = e / 2 + draw * (e / 2) / 1_000
jittered full_jitter draw e = draw * e / 1_000

-- `backoffDelayMs`.
unfoldable pub backoff_delay_ms : ℕ → BackoffOptions → ℕ → ℕ
unfolding exponential jittered
backoff_delay_ms attempt opts draw =
    jittered (or_else opts.jitter full_jitter) draw (exponential attempt opts)

-- What a call gives: a value, or an error by its number.
pub data Reply (A : Type 0) : Type 0 where
  value : A → Reply A
  failure : ℕ → Reply A

-- How `retryWithBackoff` ends.
pub data Ending (A : Type 0) : Type 0 where
  returned : A → Ending A
  rethrown : ℕ → Ending A
  exhausted : ℕ → Option ℕ → Ending A

pub record Trace (A : Type 0) : Type 0 where
  pub ending : Ending A
  pub calls : ℕ
  pub delays : List ℕ

abbrev pub add_call : {A : Type 0} → Trace A → Trace A
add_call t = record t { calls = suc t.calls }

abbrev pub add_delay : {A : Type 0} → ℕ → Trace A → Trace A
add_delay d t = record t { delays = d ∷ t.delays }

abbrev pub ends : {A : Type 0} → Ending A → Trace A
ends e = record { ending = e; calls = 0; delays = [] }

-- The options of `retryWithBackoff` are the section's parameters: `draw` and `fn` give the random
-- number and the reply of each attempt.
module _ {A : Type 0} (attempts : ℕ) (should_retry : ℕ → Bool) (opts : BackoffOptions)
    (draw : ℕ → ℕ) (fn : ℕ → Reply A) where
  -- The loop, with `left` attempts to go from `attempt` on.
  unfoldable pub retry_from : ℕ → ℕ → Option ℕ → Trace A
  unfolding backoff_delay_ms
  retry_from zero attempt last_error = ends (exhausted attempts last_error)
  retry_from (suc left) attempt last_error =
      let rest : ℕ → Trace A = λ e. retry_from left (suc attempt) (some e) in
      elim (fn attempt) [
        | value a ↦ add_call (ends (returned a))
        | failure e ↦
            if not (should_retry e)
            then add_call (ends (rethrown e))
            else if leb attempts attempt
            then add_call (ends (exhausted attempts (some e)))
            else add_call (add_delay (backoff_delay_ms attempt opts (draw attempt)) (rest e))
      ]

  -- `retryWithBackoff`.
  unfoldable pub retry_with_backoff : Trace A
  unfolding retry_from
  retry_with_backoff = retry_from attempts 1 none
