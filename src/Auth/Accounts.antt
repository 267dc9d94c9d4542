-- ===== src/Auth/Accounts.antt =====
-- `register`, `verifyEmail`, `login`, `forgotPassword` and `resetPassword` of
-- modules/auth/service.ts. Password hashing and verification are parameters. The role of a new user
-- and the events are left out.
use package.ayo_snbt_backend.Common.{
  ℕ, ◌+◌, Bool, true, false, not, ◌&&◌, ◌||◌, Option, none, some, List, [], ◌∷◌, ◌++◌, ltb, ◌==◌,
  if◌then◌else◌, or_else, is_some, any, first, select, update,
}
use package.ayo_snbt_backend.Common.Action.{
  Action, pure, throw_if, or_throw, gets, modify, ◌>>=◌, ◌>>◌, bad_request_error,
  unauthorized_error, forbidden_error, not_found_error, conflict_error, bad_request, email_taken,
  account_locked, auth_invalid_credentials, email_not_verified, account_suspended,
}
use package.ayo_snbt_backend.Common.Keys.{by}
use package.ayo_snbt_backend.Auth.Data.{
  pending, active, is_pending, is_suspended, User, RefreshToken, EmailVerification, PasswordReset,
  verify_email_mail, reset_password_mail, counter_cleared, Effect, Db,
}
use package.ayo_snbt_backend.Auth.Lockout.{record_failed}
use package.ayo_snbt_backend.Auth.Tokens.{
  NewToken, TokenEnv, create_refresh_token, revoke_where, token_id,
}

-- `hashPassword` and `verifyPassword`; a verification that throws counts as false.
pub record PasswordEnv : Type 0 where
  pub hash_password : ℕ → ℕ
  pub verify_password : ℕ → ℕ → Bool
  pub dummy_hash : ℕ

abbrev pub user_id : User → ℕ
user_id u = u.id

abbrev pub email_key : User → ℕ
email_key u = u.email

abbrev pub is_active_email : ℕ → User → Bool
is_active_email email u = (u.email == email) && not u.is_deleted

-- `hash = user?.passwordHash ?? dummy`.
abbrev pub hash_of : PasswordEnv → Option User → ℕ
hash_of pw none = pw.dummy_hash
hash_of pw (some u) = or_else u.password_hash pw.dummy_hash

-- `if (!user || !valid) throw …`.
abbrev pub accepted : Bool → Option User → Option User
accepted valid none = none
accepted true (some u) = some u
accepted false (some u) = none

abbrev pub add_effect : Effect → Db → Db
add_effect e db = record db { effects = db.effects ++ e ∷ [] }

module _ (env : TokenEnv) (pw : PasswordEnv) where
  -- `register`: the new user's id.
  unfoldable pub register : NewToken → ℕ → ℕ → ℕ → Action Db ℕ
  register fresh id email password = do
    existing ← gets (λ db. any (by email_key email) db.users)
    throw_if existing (conflict_error email_taken)
    modify (λ db. record db {
      users =
          db.users
          ++ record {
            id = id;
            email = email;
            password_hash = some (pw.hash_password password);
            status = pending;
            email_verified_at = none;
            is_deleted = false;
          }
            ∷ [];
    })
    modify (λ db. record db {
      email_verifications =
          db.email_verifications
          ++ record {
            id = fresh.id;
            user_id = id;
            token_hash = env.hash_refresh_token fresh.raw;
            expires_at = fresh.now + 86_400_000;
            used_at = none;
          }
            ∷ [];
    })
    modify (add_effect (verify_email_mail email fresh.raw))
    pure id

  -- `verifyEmail`.
  unfoldable pub verify_email : ℕ → ℕ → Action Db (Unit {0})
  verify_email token now = do
    rows ← gets (λ db. db.email_verifications)
    item ←
        or_throw
          (first (λ (v : EmailVerification). v.token_hash == env.hash_refresh_token token) rows)
          (bad_request_error bad_request)
    throw_if (is_some item.used_at) (bad_request_error bad_request)
    throw_if (ltb item.expires_at now) (bad_request_error bad_request)
    modify (λ db. record db {
      email_verifications =
          update (λ v. v.id == item.id) (λ v. record v { used_at = some now })
            db.email_verifications;
    })
    modify (λ db. record db {
      users =
          update (by user_id item.user_id)
            (λ u. record u { email_verified_at = some now; status = active }) db.users;
    })

  -- The part of `login` after the credentials are checked.
  unfoldable pub open_session : NewToken → ℕ → ℕ → User → Action Db ℕ
  unfolding create_refresh_token
  open_session fresh email ip user = do
    throw_if (is_pending user.status || not (is_some user.email_verified_at))
        (forbidden_error email_not_verified)
    throw_if (is_suspended user.status) (forbidden_error account_suspended)
    modify (add_effect (counter_cleared email ip))
    create_refresh_token env fresh user.id none

  -- `login`: the raw refresh token. `count` is Redis's answer to the increment.
  unfoldable pub login : NewToken → Option ℕ → ℕ → ℕ → ℕ → Action Db ℕ
  unfolding record_failed open_session
  login fresh count email password ip = do
    throw_if (record_failed count).locked (unauthorized_error account_locked)
    found ← gets (λ db. first (is_active_email email) db.users)
    valid ← pure (pw.verify_password password (hash_of pw found))
    user ← or_throw (accepted valid found) (unauthorized_error auth_invalid_credentials)
    open_session fresh email ip user

  -- `forgotPassword`: nothing for an address that no account has.
  unfoldable pub forgot_password : NewToken → ℕ → Action Db (Unit {0})
  forgot_password fresh email = do
    found ← gets (λ db. any (by email_key email) db.users)
    if not found then pure tt else (do
      modify (λ db. record db {
        password_resets =
            db.password_resets
            ++ record {
              id = fresh.id;
              email = email;
              token_hash = env.hash_refresh_token fresh.raw;
              expires_at = fresh.now + 900_000;
              used_at = none;
            }
              ∷ [];
      })
      modify (add_effect (reset_password_mail email fresh.raw)))

  -- The loop that revokes the user's sessions.
  unfoldable pub revoke_each : List RefreshToken → ℕ → Db → Db
  revoke_each [] now db = db
  revoke_each (t ∷ ts) now db = revoke_each ts now (revoke_where (by token_id t.id) now db)

  -- `resetPassword`.
  unfoldable pub reset_password : ℕ → ℕ → ℕ → Action Db (Unit {0})
  unfolding revoke_each
  reset_password token new_password now = do
    rows ← gets (λ db. db.password_resets)
    item ←
        or_throw (first (λ (r : PasswordReset). r.token_hash == env.hash_refresh_token token) rows)
          (bad_request_error bad_request)
    throw_if (is_some item.used_at) (bad_request_error bad_request)
    throw_if (ltb item.expires_at now) (bad_request_error bad_request)
    users ← gets (λ db. db.users)
    user ← or_throw (first (by email_key item.email) users) not_found_error
    modify (λ db. record db {
      users =
          update (by user_id user.id)
            (λ u. record u { password_hash = some (pw.hash_password new_password) }) db.users;
    })
    modify (λ db. record db {
      password_resets =
          update (λ r. r.id == item.id) (λ r. record r { used_at = some now }) db.password_resets;
    })
    modify (λ db. revoke_each (select (λ t. t.user_id == user.id) db.refresh_tokens) now db)
