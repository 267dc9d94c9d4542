-- ===== src/Http/Examples.antt =====
-- The idempotency plugin and the rate limiter at concrete requests.
use package.ayo_snbt_backend.Common.{◌≡◌, refl, false, true, some, List, [], ◌∷◌, ℕ}
use package.ayo_snbt_backend.Http.Idempotency.{
  Request, Reply, refused, serve, serve_retry, serve_reused,
}
use package.ayo_snbt_backend.Http.RateLimit.{Bucket}

abbrev order : Request
order = record {
  is_mutating = true;
  namespace = 1;
  header = some 2;
  header_length = 36;
  body_hash = 50;
}

abbrev changed : Request
changed = record order { body_hash = 51 }

abbrev accepted : Reply
accepted = record { status_code = 201; body = 7 }

serve_retry_example :
    ((serve refused (serve accepted [] order).1 order).0 ≡ accepted)
    × ((serve refused (serve accepted [] order).1 order).2 ≡ false)
serve_retry_example = serve_retry accepted refused [] order 2 (refl, refl, refl) refl refl

serve_reused_example :
    ((serve accepted (serve accepted [] order).1 changed).0 ≡ refused)
    × ((serve accepted (serve accepted (serve accepted [] order).1 changed).1 order).0 ≡ refused)
serve_reused_example =
    serve_reused accepted accepted accepted [] order changed 2 (refl, refl, refl) (refl, refl, refl)
      refl refl refl refl

abbrev bucket : Bucket
bucket = record { key = 3; count = 1; resets_at = 60_000 }

abbrev times : List ℕ
times = 100 ∷ 200 ∷ []
