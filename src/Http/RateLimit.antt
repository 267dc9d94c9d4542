-- ===== src/Http/RateLimit.antt =====
-- The memory store of shared/http/rate-limit-store.ts. A key stands for the scope with the key.
use package.ayo_snbt_backend.Common.{
  ℕ, ◌+◌, ◌-◌, ◌<◌, ◌≡◌, refl, false, none, some, List, [], ◌∷◌, ◌++◌, arith, ltb, leb,
  if◌then◌else◌, first, select, update, length, any, ==_refl,
}
use package.ayo_snbt_backend.Common.Keys.{by, first-by-update}

pub record Bucket : Type 0 where
  pub key : ℕ
  pub count : ℕ
  pub resets_at : ℕ

-- What the callback gets.
pub record Hits : Type 0 where
  pub current : ℕ
  pub ttl : ℕ

abbrev pub bucket_key : Bucket → ℕ
bucket_key b = b.key

-- `sweep`.
unfoldable pub sweep : ℕ → List Bucket → List Bucket
sweep now buckets =
    if ltb (length buckets) 10_000 then buckets else select (λ b. ltb now b.resets_at) buckets

-- `buckets.set(key, …)`.
unfoldable pub set_bucket : Bucket → List Bucket → List Bucket
set_bucket b buckets =
    if any (by bucket_key b.key) buckets
    then update (by bucket_key b.key) (λ x. record b { key = x.key }) buckets
    else buckets ++ b ∷ []

unfoldable pub fresh_window : ℕ → ℕ → ℕ → List Bucket → Hits × List Bucket
unfolding sweep set_bucket
fresh_window key window now buckets = (
  record { current = 1; ttl = window },
  sweep now (set_bucket (record { key = key; count = 1; resets_at = now + window }) buckets),
)

-- `incr`. The difference is positive there, so that subtraction is exact.
unfoldable pub incr : ℕ → ℕ → ℕ → List Bucket → Hits × List Bucket
unfolding fresh_window
incr key window now buckets = elim (first (by bucket_key key) buckets) [
  | none ↦ fresh_window key window now buckets
  | some b ↦ if leb b.resets_at now then fresh_window key window now buckets else (
    record { current = b.count + 1; ttl = b.resets_at - now },
    update (by bucket_key key) (λ x. record x { count = x.count + 1 }) buckets,
  )
]

-- The requests of a key at these times.
unfoldable pub incrs : ℕ → ℕ → List ℕ → List Bucket → List Bucket
unfolding incr
incrs key window [] buckets = buckets
incrs key window (t ∷ ts) buckets = incrs key window ts (incr key window t buckets).1

-- The key's bucket is found with this count and end.
abbrev pub FoundBucket : ℕ → ℕ → ℕ → List Bucket → Type 0
FoundBucket key n end buckets =
    (b : Bucket) × (first (by bucket_key key) buckets ≡ some b)
    × (b.count ≡ n)
    × (b.resets_at ≡ end)

-- All the times lie before the end.
abbrev pub AllBefore : ℕ → List ℕ → Type 0
AllBefore end [] = Unit
AllBefore end (t ∷ ts) = (t < end) × AllBefore end ts

incr-FoundBucket :
    (key window now n end : ℕ) (buckets : List Bucket)
    → now < end
    → FoundBucket key n end buckets
    → ((incr key window now buckets).0.current ≡ n + 1)
      × FoundBucket key (n + 1) end (incr key window now buckets).1
unfolding incr
incr-FoundBucket key window now n end buckets h f =
    rw (f.1, incr)
      (rw (early, incr)
        (
          ground (arith, f.2),
          (
            record (f.0) { count = (f.0).count + 1 },
            rw
                (first-by-update bucket_key key key (λ x. record x { count = x.count + 1 }) buckets
                  (λ x. refl))
                (rw (f.1) (rw (==_refl key) refl)),
            ground (arith, f.2),
            f.3,
          ),
        ))
  where
    early : leb (f.0).resets_at now ≡ false
    early = ground (arith, f.3)

-- Within a window the limiter counts every request: after requests at any times before the window's
-- end, the next one gets the number of all requests in the window, itself included.
pub incrs-current :
    (key window n end now : ℕ) (ts : List ℕ) (buckets : List Bucket)
    → FoundBucket key n end buckets
    → AllBefore end ts
    → now < end
    → (incr key window now (incrs key window ts buckets)).0.current ≡ (n + length ts) + 1
unfolding incrs
incrs-current key window n end now [] buckets f a h =
    omega (arith, (incr-FoundBucket key window now n end buckets h f).0)
incrs-current key window n end now (t ∷ ts) buckets f a h = omega (
  arith,
  incrs-current key window (n + 1) end now ts (incr key window t buckets).1
      (incr-FoundBucket key window t n end buckets a.0 f).1 a.1 h,
)
