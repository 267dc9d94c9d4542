-- ===== src/Backoff/Bounds.antt =====
-- The delays between the attempts, and how many attempts there are.
use package.ayo_snbt_backend.Common.{
  ℕ, zero, suc, ◌+◌, ◌-◌, ◌≤◌, ◌<◌, ◌≡◌, ◌⊎◌, ◌*◌, ◌/◌, refl, inl, inr, Bool, true, false, Option,
  none, some, arith, length, leb, or_else, All, Bool-cases,
}
use native.Mathlib.Nat.{div-le_of_le-mul, mul-le-mul_right}
use package.ayo_snbt_backend.Backoff.{
  JitterMode, full_jitter, equal_jitter, no_jitter, BackoffOptions, exponential, jittered,
  backoff_delay_ms, Reply, value, failure, returned, Trace, retry_from, retry_with_backoff,
}

Reply-cases : {A : Type 0} (r : Reply A) → ((a : A) × (r ≡ value a)) ⊎ ((e : ℕ) × (r ≡ failure e))
Reply-cases (value a) = inl (a, refl)
Reply-cases (failure e) = inr (e, refl)

exponential-le :
    (attempt : ℕ) (opts : BackoffOptions)
    → exponential attempt opts ≤ or_else opts.max_delay_ms 30_000
unfolding exponential
exponential-le attempt opts = ground arith

scaled-le : (draw e : ℕ) → draw < 1_000 → draw * e / 1_000 ≤ e
scaled-le draw e h = div-le_of_le-mul 1_000 (grind (arith, mul-le-mul_right))

jittered-le : (m : JitterMode) (draw e : ℕ) → draw < 1_000 → jittered m draw e ≤ e
unfolding jittered
jittered-le no_jitter draw e h = omega arith
jittered-le equal_jitter draw e h = omega (arith, scaled-le draw (e / 2) h)
jittered-le full_jitter draw e h = scaled-le draw e h

module _ {A : Type 0} (attempts : ℕ) (should_retry : ℕ → Bool) (opts : BackoffOptions)
    (draw : ℕ → ℕ) (fn : ℕ → Reply A) (draw_below : (n : ℕ) → draw n < 1_000) where
  abbrev cap : ℕ
  cap = or_else opts.max_delay_ms 30_000

  delay-le : (attempt : ℕ) → backoff_delay_ms attempt opts (draw attempt) ≤ cap
  unfolding backoff_delay_ms
  delay-le attempt = omega (
    arith,
    jittered-le (or_else opts.jitter full_jitter) (draw attempt) (exponential attempt opts)
        (draw_below attempt),
    exponential-le attempt opts,
  )

  abbrev run : ℕ → ℕ → Option ℕ → Trace A
  run left attempt last = retry_from attempts should_retry opts draw fn left attempt last

  abbrev Within : ℕ → Trace A → Type 0
  Within left t = (t.calls ≤ left) × (length t.delays ≤ left - 1) × All (λ d. d ≤ cap) t.delays

  retry_from-Within :
      (left attempt : ℕ) (last : Option ℕ)
      → left + attempt ≡ attempts + 1
      → Within left (run left attempt last)
  unfolding retry_from
  retry_from-Within zero attempt last h = (omega arith, omega arith, tt)
  retry_from-Within (suc left) attempt last h = elim (Reply-cases (fn attempt)) [
    | inl (a, e) ↦ rw (e, retry_from) (omega arith, omega arith, tt)
    | inr (x, e) ↦ elim (Bool-cases (should_retry x)) [
      | inl s ↦ elim (Bool-cases (leb attempts attempt)) [
        | inl g ↦
            rw (e, retry_from)
              (rw (s, retry_from) (rw (g, retry_from) (omega arith, omega arith, tt)))
        | inr g ↦
            let ih : Within left (run left (suc attempt) (some x)) =
              retry_from-Within left (suc attempt) (some x) (omega arith) in
            rw (e, retry_from)
              (rw (s, retry_from)
                (rw (g, retry_from)
                  (omega (arith, ih.0), ground (arith, ih.1), (delay-le attempt, ih.2))))
      ]
      | inr s ↦ rw (e, retry_from) (rw (s, retry_from) (omega arith, omega arith, tt))
    ]
  ]

  -- Where the random draws are below one, the operation is called at most as often as there are
  -- attempts, waits fewer times than that, and no wait is longer than the maximum.
  pub retry-bounds :
      ((retry_with_backoff attempts should_retry opts draw fn).calls ≤ attempts)
      × (length (retry_with_backoff attempts should_retry opts draw fn).delays ≤ attempts - 1)
      × All (λ d. d ≤ cap) (retry_with_backoff attempts should_retry opts draw fn).delays
  unfolding retry_with_backoff
  retry-bounds = retry_from-Within attempts 1 none (omega arith)

module _ {A : Type 0} (attempts : ℕ) (should_retry : ℕ → Bool) (opts : BackoffOptions)
    (draw : ℕ → ℕ) (fn : ℕ → Reply A) where
  -- The replies from `attempt` on: `k` errors that may be tried again, then this value.
  abbrev Succeeds : ℕ → ℕ → A → Type 0
  Succeeds zero attempt a = fn attempt ≡ value a
  Succeeds (suc k) attempt a =
      ((e : ℕ) × (fn attempt ≡ failure e) × (should_retry e ≡ true)) × Succeeds k (suc attempt) a

  retry_from-returns :
      (left attempt k : ℕ) (last : Option ℕ) (a : A)
      → left + attempt ≡ attempts + 1
      → k < left
      → Succeeds k attempt a
      → ((retry_from attempts should_retry opts draw fn left attempt last).ending ≡ returned a)
        × ((retry_from attempts should_retry opts draw fn left attempt last).calls ≡ suc k)
  unfolding retry_from
  retry_from-returns zero attempt k last a h l s = absurd (omega (arith, l))
  retry_from-returns (suc left) attempt zero last a h l s = rw (s, retry_from) (refl, refl)
  retry_from-returns (suc left) attempt (suc k) last a h l s =
      let g : leb attempts attempt ≡ false = ground arith in
      let ih =
        retry_from-returns left (suc attempt) k (some s.0.0) a (omega arith) (omega arith) s.1 in
      rw (s.0.1, retry_from)
        (rw (s.0.2, retry_from) (rw (g, retry_from) (ih.0, omega (arith, ih.1))))

  -- Where fewer calls than there are attempts fail, with errors that may be tried again, before one
  -- gives a value, that value is returned, and no further call is made.
  pub retry-returns :
      (k : ℕ) (a : A)
      → k < attempts
      → Succeeds k 1 a
      → ((retry_with_backoff attempts should_retry opts draw fn).ending ≡ returned a)
        × ((retry_with_backoff attempts should_retry opts draw fn).calls ≡ suc k)
  unfolding retry_with_backoff
  retry-returns k a l s = retry_from-returns attempts 1 k none a (omega arith) l s
