-- ===== src/Auth/Data.antt =====
-- shared/db/schema/auth.ts and the columns of `users` that authentication reads. Ids, addresses,
-- hashes and passwords are numbers.
use package.ayo_snbt_backend.Common.{ℕ, Bool, true, false, Option, List}

pub data UserStatus : Type 0 where
  pending active suspended : UserStatus

abbrev pub is_pending : UserStatus → Bool
is_pending pending = true
is_pending active = false
is_pending suspended = false

abbrev pub is_suspended : UserStatus → Bool
is_suspended suspended = true
is_suspended pending = false
is_suspended active = false

pub record User : Type 0 where
  pub id : ℕ
  pub email : ℕ
  pub password_hash : Option ℕ
  pub status : UserStatus
  pub email_verified_at : Option ℕ
  pub is_deleted : Bool

pub record RefreshToken : Type 0 where
  pub id : ℕ
  pub user_id : ℕ
  pub token_hash : ℕ
  pub family_id : ℕ
  pub expires_at : ℕ
  pub revoked_at : Option ℕ

pub record EmailVerification : Type 0 where
  pub id : ℕ
  pub user_id : ℕ
  pub token_hash : ℕ
  pub expires_at : ℕ
  pub used_at : Option ℕ

pub record PasswordReset : Type 0 where
  pub id : ℕ
  pub email : ℕ
  pub token_hash : ℕ
  pub expires_at : ℕ
  pub used_at : Option ℕ

-- The mails that are queued, and the lockout counters that are deleted.
pub data Effect : Type 0 where
  verify_email_mail reset_password_mail : ℕ → ℕ → Effect
  counter_cleared : ℕ → ℕ → Effect

pub record Db : Type 0 where
  pub users : List User
  pub refresh_tokens : List RefreshToken
  pub email_verifications : List EmailVerification
  pub password_resets : List PasswordReset
  pub effects : List Effect
