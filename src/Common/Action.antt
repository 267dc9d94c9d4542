-- ===== src/Common/Action.antt =====
-- shared/http/errors.ts, and the shape of a service method: it reads and writes the tables, and
-- returns or throws. What it wrote before a throw stays written, since the services open no
-- transaction here.
use Prim.Native.Nat.{ℕ}
use mathlib.Core.Bool.{Bool, true, false}
use mathlib.Core.Option.{Option, none, some}

-- The error codes that the modelled services use.
pub data ErrorCode : Type 0 where
  bad_request validation_error unauthorized token_expired forbidden not_found conflict : ErrorCode
  coupon_invalid coupon_expired coupon_exhausted webhook_signature_invalid : ErrorCode
  tryout_not_started tryout_expired attempt_limit_reached package_empty bank_empty : ErrorCode
  session_closed session_expired not_graded : ErrorCode
  email_taken account_locked auth_invalid_credentials email_not_verified : ErrorCode
  account_suspended token_reuse_detected : ErrorCode
  internal_error csrf_token_mismatch idempotency_key_reused invalid_limit invalid_cursor : ErrorCode
  payment_required import_too_large oauth_no_email not_room_member : ErrorCode
  bad_content_type video_not_ready enrollment_required : ErrorCode

-- The message and the details of an `AppError` are left out.
pub record AppError : Type 0 where
  pub status_code : ℕ
  pub code : ErrorCode

abbrev pub bad_request_error : ErrorCode → AppError
bad_request_error c = record { status_code = 400; code = c }

abbrev pub unauthorized_error : ErrorCode → AppError
unauthorized_error c = record { status_code = 401; code = c }

abbrev pub forbidden_error : ErrorCode → AppError
forbidden_error c = record { status_code = 403; code = c }

abbrev pub not_found_error : AppError
not_found_error = record { status_code = 404; code = not_found }

abbrev pub conflict_error : ErrorCode → AppError
conflict_error c = record { status_code = 409; code = c }

-- An error that is no `AppError`, such as a broken unique index or a provider that does not answer:
-- the error handler of shared/http/plugin.ts answers it with status 500.
abbrev pub other_error : AppError
other_error = record { status_code = 500; code = internal_error }

-- What a call leaves: the state, beside the value returned or the error thrown.
pub data Outcome (S A : Type 0) : Type 0 where
  returns : A → S → Outcome S A
  throws : AppError → S → Outcome S A

abbrev pub Action : Type 0 → Type 0 → Type 0
Action S A = S → Outcome S A

abbrev pub and_then : {S A B : Type 0} → Outcome S A → (A → Action S B) → Outcome S B
and_then (returns a s) f = f a s
and_then (throws e s) f = throws e s

module _ {S : Type 0} where
  abbrev pub pure : {A : Type 0} → A → Action S A
  pure a s = returns a s

  abbrev pub throw : {A : Type 0} → AppError → Action S A
  throw e s = throws e s

  -- `if (bad) throw e;`
  abbrev pub throw_if : Bool → AppError → Action S (Unit {0})
  throw_if true e s = throws e s
  throw_if false e s = returns tt s

  -- `if (!row) throw e;`
  abbrev pub or_throw : {A : Type 0} → Option A → AppError → Action S A
  or_throw none e s = throws e s
  or_throw (some a) e s = returns a s

  abbrev pub gets : {A : Type 0} → (S → A) → Action S A
  gets f s = returns (f s) s

  abbrev pub modify : (S → S) → Action S (Unit {0})
  modify f s = returns tt (f s)

  infixl 5 ◌>>=◌ ◌>>◌
  abbrev pub ◌>>=◌ : {A B : Type 0} → Action S A → (A → Action S B) → Action S B
  ◌>>=◌ m f s = and_then (m s) f

  abbrev pub ◌>>◌ : {B : Type 0} → Action S (Unit {0}) → Action S B → Action S B
  ◌>>◌ m k = m >>= λ _. k

-- The state after a call, whether it returned or threw.
abbrev pub after : {S A : Type 0} → Outcome S A → S
after (returns a s) = s
after (throws e s) = s

-- The call returned this value.
abbrev pub value : {S A : Type 0} → Outcome S A → Option A
value (returns a s) = some a
value (throws e s) = none

-- The call threw this error.
abbrev pub error : {S A : Type 0} → Outcome S A → Option AppError
error (returns a s) = none
error (throws e s) = some e

-- The rule for a call after another: `Q` is what the first one leaves, whether it returns or throws.
pub after-and_then :
    {S A B : Type 0} (Q P : S → Type 0) (o : Outcome S A) (f : A → Action S B)
    → Q (after o)
    → ((s : S) → Q s → P s)
    → ((a : A) (s : S) → Q s → P (after (f a s)))
    → P (after (and_then o f))
after-and_then Q P (returns a s) f q thrown next = next a s q
after-and_then Q P (throws e s) f q thrown next = thrown s q
