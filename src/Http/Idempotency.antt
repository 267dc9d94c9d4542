-- ===== src/Http/Idempotency.antt =====
-- shared/http/idempotency.ts, where Redis answers. Its keys are the actor's namespace with the
-- header, and expiry is left out. A body is stood for by its hash.
use package.ayo_snbt_backend.Common.{
  ℕ, ◌≡◌, sym, refl, ==_iff, Bool, true, false, not, ◌&&◌, ◌||◌, Option, none, some, List, ◌∷◌,
  arith, ◌==◌, ltb, if◌then◌else◌, first, ==_refl,
}

pub record StoredResponse : Type 0 where
  pub namespace : ℕ
  pub header : ℕ
  pub status_code : ℕ
  pub body : ℕ
  pub request_body_hash : ℕ

pub record Request : Type 0 where
  pub is_mutating : Bool
  pub namespace : ℕ
  pub header : Option ℕ
  pub header_length : ℕ
  pub body_hash : ℕ

pub record Reply : Type 0 where
  pub status_code : ℕ
  pub body : ℕ

-- What the hook decides: the handler runs, or this reply is sent; and the key that the request has
-- from then on.
pub data Decision : Type 0 where
  proceeds : Option ℕ → Decision
  replies : Reply → Option ℕ → Decision

-- The bodies of the two errors.
abbrev pub too_long_body : ℕ
too_long_body = 400

abbrev pub reused_body : ℕ
reused_body = 409

abbrev pub is_stored : ℕ → ℕ → StoredResponse → Bool
is_stored namespace header s = (s.namespace == namespace) && (s.header == header)

unfoldable pub look_up : List StoredResponse → Request → ℕ → Decision
look_up table request header = elim (first (is_stored request.namespace header) table) [
  | none ↦ proceeds (some header)
  | some s ↦
      if not (s.request_body_hash == request.body_hash)
      then replies (record { status_code = 409; body = reused_body }) (some header)
      else replies (record { status_code = s.status_code; body = s.body }) (some header)
]

-- The `preHandler` hook.
unfoldable pub pre_handler : List StoredResponse → Request → Decision
unfolding look_up
pre_handler table request = elim request.header [
  | none ↦ proceeds none
  | some header ↦
      if not request.is_mutating || request.header_length == 0
      then proceeds none
      else (if ltb 128 request.header_length
          then replies (record { status_code = 400; body = too_long_body }) none
          else look_up table request header)
]

-- The `onSend` hook: the newest response for a key comes first.
unfoldable pub on_send : List StoredResponse → Request → Option ℕ → Reply → List StoredResponse
on_send table request none reply = table
on_send table request (some header) reply =
    if ltb 499 reply.status_code
    then table
    else record {
      namespace = request.namespace;
      header = header;
      status_code = reply.status_code;
      body = reply.body;
      request_body_hash = request.body_hash;
    }
      ∷ table

-- A request through both hooks: its reply, the table, and whether the handler ran.
unfoldable pub serve : Reply → List StoredResponse → Request → Reply × List StoredResponse × Bool
unfolding pre_handler on_send
serve handled table request = elim (pre_handler table request) [
  | proceeds key ↦ (handled, on_send table request key handled, true)
  | replies reply key ↦ (reply, on_send table request key reply, false)
]

-- A request that carries a usable key.
abbrev pub HasKey : Request → ℕ → Type 0
HasKey request header =
    (request.header ≡ some header)
    × ((not request.is_mutating || request.header_length == 0) ≡ false)
    × (ltb 128 request.header_length ≡ false)

reaches :
    (table : List StoredResponse) (request : Request) (header : ℕ)
    → HasKey request header
    → pre_handler table request ≡ look_up table request header
unfolding pre_handler
reaches table request header k = ground (arith, k.0, k.1, k.2)

found :
    (s : StoredResponse) (table : List StoredResponse) (request : Request) (header : ℕ)
    → s.namespace ≡ request.namespace
    → s.header ≡ header
    → look_up (s ∷ table) request header ≡ (
        if not (s.request_body_hash == request.body_hash)
        then replies (record { status_code = 409; body = reused_body }) (some header)
        else replies (record { status_code = s.status_code; body = s.body }) (some header))
unfolding look_up
found s table request header n h =
    rw ((==_iff s.namespace request.namespace).1 n, look_up)
      (rw ((==_iff s.header header).1 h, look_up) refl)

abbrev response : Reply → Request → ℕ → StoredResponse
response reply request header = record {
  namespace = request.namespace;
  header = header;
  status_code = reply.status_code;
  body = reply.body;
  request_body_hash = request.body_hash;
}

stored :
    (handled : Reply) (table : List StoredResponse) (request : Request) (header : ℕ)
    → HasKey request header
    → first (is_stored request.namespace header) table ≡ none
    → ltb 499 handled.status_code ≡ false
    → serve handled table request ≡ (handled, response handled request header ∷ table, true)
unfolding serve look_up on_send
stored handled table request header k n s =
    rw (reaches table request header k, serve) (rw (n, look_up) (rw s refl))

same_body :
    (again reply : Reply) (table : List StoredResponse) (request : Request) (header : ℕ)
    → HasKey request header
    → ((serve again (response reply request header ∷ table) request).0 ≡ reply)
      × ((serve again (response reply request header ∷ table) request).2 ≡ false)
unfolding serve
same_body again reply table request header k =
    rw (reaches (response reply request header ∷ table) request header k, serve)
      (rw (found (response reply request header) table request header refl refl)
        (rw (==_refl request.body_hash) (refl, refl)))

-- A request with a new key, which was answered with no server error, is answered again, on a retry,
-- as the first time, without running the handler.
pub serve_retry :
    (handled again : Reply) (table : List StoredResponse) (request : Request) (header : ℕ)
    → HasKey request header
    → first (is_stored request.namespace header) table ≡ none
    → ltb 499 handled.status_code ≡ false
    → ((serve again (serve handled table request).1 request).0 ≡ handled)
      × ((serve again (serve handled table request).1 request).2 ≡ false)
serve_retry handled again table request header k n s =
    rw (stored handled table request header k n s) (same_body again handled table request header k)

abbrev pub refused : Reply
refused = record { status_code = 409; body = reused_body }

other_body :
    (again reply : Reply) (table : List StoredResponse) (request other : Request) (header : ℕ)
    → HasKey other header
    → request.namespace ≡ other.namespace
    → (request.body_hash == other.body_hash) ≡ false
    → serve again (response reply request header ∷ table) other
      ≡ (refused, response refused other header ∷ response reply request header ∷ table, false)
unfolding serve on_send
other_body again reply table request other header k n d =
    rw (reaches (response reply request header ∷ table) other header k, serve)
      (rw (found (response reply request header) table other header n refl) (rw d refl))

-- A request that reuses the key with another body is refused, and its refusal takes the place of the
-- stored response: a retry of the first request is refused too, where the response was to be replayed.
pub serve_reused :
    (handled again third : Reply) (table : List StoredResponse) (request other : Request)
    (header : ℕ)
    → HasKey request header
    → HasKey other header
    → request.namespace ≡ other.namespace
    → (request.body_hash == other.body_hash) ≡ false
    → first (is_stored request.namespace header) table ≡ none
    → ltb 499 handled.status_code ≡ false
    → ((serve again (serve handled table request).1 other).0 ≡ refused)
      × ((serve third (serve again (serve handled table request).1 other).1 request).0 ≡ refused)
serve_reused handled again third table request other header k l e d n s =
    rw (stored handled table request header k n s) (
      rw (other_body again handled table request other header l e d) (
        refl,
        rw
            (other_body third refused (response handled request header ∷ table) other request header
              k (sym e) swapped)
            refl,
      ))
  where
    swapped : (other.body_hash == request.body_hash) ≡ false
    swapped = ground arith
