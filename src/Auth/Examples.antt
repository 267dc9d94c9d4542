-- ===== src/Auth/Examples.antt =====
-- The theorems about authentication at one account.
use package.ayo_snbt_backend.Common.{◌≡◌, ◌↔◌, ◌==◌, refl, false, none, some, List, [], ◌∷◌, first}
use package.ayo_snbt_backend.Common.Action.{
  after, error, value, unauthorized_error, token_reuse_detected, bad_request_error, bad_request,
  forbidden_error, account_suspended,
}
use package.ayo_snbt_backend.Common.Keys.{by}
use package.ayo_snbt_backend.Auth.Data.{active, suspended, User, RefreshToken, Db}
use package.ayo_snbt_backend.Auth.Lockout.{record_failed}
use package.ayo_snbt_backend.Auth.Tokens.{NewToken, TokenEnv, refresh}
use package.ayo_snbt_backend.Auth.Accounts.{PasswordEnv, login, verify_email, user_id}
use package.ayo_snbt_backend.Auth.Oauth.{OauthDb, Profile, oauth_login, oauth_login_suspended}
use package.ayo_snbt_backend.Auth.Step.{Call, logs_in, run}
use package.ayo_snbt_backend.Auth.Family.{reuse_ends_family}
use package.ayo_snbt_backend.Auth.Locked.{MaySignIn, login_iff, verify_email_lem}

-- A hash and a password check that a witness can compute.
abbrev tokens_env : TokenEnv
tokens_env = record { hash_refresh_token = λ raw. raw; ttl_days = 30 }

abbrev passwords : PasswordEnv
passwords = record { hash_password = λ p. p; verify_password = λ p h. p == h; dummy_hash = 0 }

abbrev student : User
student = record {
  id = 1;
  email = 11;
  password_hash = some 77;
  status = active;
  email_verified_at = some 5;
  is_deleted = false;
}

abbrev stolen : RefreshToken
stolen = record {
  id = 3;
  user_id = 1;
  token_hash = 100;
  family_id = 8;
  expires_at = 900;
  revoked_at = some 50;
}

abbrev current : RefreshToken
current = record stolen { id = 4; token_hash = 101; revoked_at = none }

abbrev current_revoked : RefreshToken
current_revoked = record current { revoked_at = some 60 }

abbrev accounts : Db
accounts = record {
  users = student ∷ [];
  refresh_tokens = stolen ∷ current ∷ [];
  email_verifications =
      record { id = 6; user_id = 1; token_hash = 200; expires_at = 900; used_at = none } ∷ [];
  password_resets = [];
  effects = [];
}

abbrev at_60 : NewToken
at_60 = record { now = 60; id = 20; raw = 300; family = 9 }

abbrev at_70 : NewToken
at_70 = record { now = 70; id = 21; raw = 301; family = 10 }

abbrev at_80 : NewToken
at_80 = record { now = 80; id = 22; raw = 302; family = 12 }

abbrev calls : List Call
calls = logs_in at_70 (some 1) 11 77 5 ∷ []

reuse_ends_family_example :
    error (
      refresh tokens_env at_80 101
        (run tokens_env passwords (after (refresh tokens_env at_60 100 accounts)) calls))
    ≡ some (unauthorized_error token_reuse_detected)
unfolding run refresh
reuse_ends_family_example =
    reuse_ends_family tokens_env passwords at_60 100 stolen accounts calls at_80 101 current_revoked
      refl refl (refl, tt) refl refl

login_iff_example :
    (value (login tokens_env passwords at_60 (some 2) 11 77 5 accounts) ≡ some 300)
    ↔ (((record_failed (some 2)).locked ≡ false) × MaySignIn passwords 11 77 accounts)
login_iff_example = login_iff tokens_env passwords at_60 11 77 5 (some 2) accounts

abbrev banned : Db
banned = record accounts { users = record student { status = suspended } ∷ [] }

verify_email_lem_example :
    (first (by user_id 1) (after (verify_email tokens_env passwords 200 60 banned)).users
      ≡ some (record student { email_verified_at = some 60 }))
    × (error (
          verify_email tokens_env passwords 200 60
            (after (verify_email tokens_env passwords 200 60 banned)))
        ≡ some (bad_request_error bad_request))
verify_email_lem_example =
    verify_email_lem tokens_env passwords 200 60
      (record { id = 6; user_id = 1; token_hash = 200; expires_at = 900; used_at = none })
      (record student { status = suspended }) banned refl refl refl refl

abbrev blocked : User
blocked = record student { status = suspended }

abbrev blocked_accounts : OauthDb
blocked_accounts = record {
  db = record accounts { users = blocked ∷ [] };
  identities = record { user_id = 1; provider = 2; provider_user_id = 55; email = some 11 } ∷ [];
}

abbrev google_profile : Profile
google_profile = record { provider_user_id = 55; email = some 11 }

oauth_login_suspended_example :
    (error (login tokens_env passwords at_60 (some 1) 11 77 9 blocked_accounts.db)
      ≡ some (forbidden_error account_suspended))
    × (value (oauth_login tokens_env at_60 7 2 google_profile blocked_accounts) ≡ some at_60.raw)
unfolding record_failed
oauth_login_suspended_example =
    oauth_login_suspended tokens_env passwords at_60 7 2 google_profile (some 1) 77 9
      (record { user_id = 1; provider = 2; provider_user_id = 55; email = some 11 }) blocked
      blocked_accounts refl refl refl refl refl refl refl
