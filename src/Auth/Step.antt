-- ===== src/Auth/Step.antt =====
-- The calls of the authentication service, as one step and as a run of steps.
use package.ayo_snbt_backend.Common.{ℕ, Option, List, [], ◌∷◌}
use package.ayo_snbt_backend.Common.Action.{after}
use package.ayo_snbt_backend.Auth.Data.{Db}
use package.ayo_snbt_backend.Auth.Tokens.{NewToken, TokenEnv, refresh, logout}
use package.ayo_snbt_backend.Auth.Accounts.{
  PasswordEnv, register, verify_email, login, forgot_password, reset_password,
}

pub data Call : Type 0 where
  registers : NewToken → ℕ → ℕ → ℕ → Call
  verifies : ℕ → ℕ → Call
  logs_in : NewToken → Option ℕ → ℕ → ℕ → ℕ → Call
  refreshes : NewToken → ℕ → Call
  logs_out : Option ℕ → ℕ → Call
  forgets : NewToken → ℕ → Call
  resets : ℕ → ℕ → ℕ → Call

module _ (env : TokenEnv) (pw : PasswordEnv) where
  unfoldable pub step : Db → Call → Db
  unfolding register verify_email login refresh logout forgot_password reset_password
  step db (registers fresh id email password) = after (register env pw fresh id email password db)
  step db (verifies token now) = after (verify_email env pw token now db)
  step db (logs_in fresh count email password ip) =
      after (login env pw fresh count email password ip db)
  step db (refreshes fresh raw) = after (refresh env fresh raw db)
  step db (logs_out raw now) = after (logout env raw now db)
  step db (forgets fresh email) = after (forgot_password env pw fresh email db)
  step db (resets token new_password now) = after (reset_password env pw token new_password now db)

  unfoldable pub run : Db → List Call → Db
  unfolding step
  run db [] = db
  run db (c ∷ cs) = run (step db c) cs
