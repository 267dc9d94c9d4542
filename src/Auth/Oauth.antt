-- ===== src/Auth/Oauth.antt =====
-- `oauthLogin` of modules/auth/service.ts. Names, pictures and roles are left out, and the access token.
use package.ayo_snbt_backend.Common.{
  ℕ, ◌≡◌, refl, Bool, true, false, ◌&&◌, Option, none, some, List, [], ◌∷◌, ◌++◌, ◌==◌, first,
  is_some,
}
use package.ayo_snbt_backend.Common.Action.{
  Action, Outcome, returns, throws, pure, or_throw, gets, modify, ◌>>=◌, ◌>>◌, value, error,
  bad_request_error, forbidden_error, not_found_error, account_suspended, oauth_no_email,
}
use package.ayo_snbt_backend.Common.Keys.{by}
use package.ayo_snbt_backend.Auth.Data.{
  UserStatus, pending, active, suspended, User, Db, is_pending, is_suspended,
}
use package.ayo_snbt_backend.Auth.Lockout.{record_failed}
use package.ayo_snbt_backend.Auth.Tokens.{NewToken, TokenEnv, create_refresh_token}
use package.ayo_snbt_backend.Auth.Accounts.{
  PasswordEnv, user_id, email_key, is_active_email, hash_of, login, open_session,
}

-- A row of `userIdentities`.
pub record UserIdentity : Type 0 where
  pub user_id : ℕ
  pub provider : ℕ
  pub provider_user_id : ℕ
  pub email : Option ℕ

pub record Profile : Type 0 where
  pub provider_user_id : ℕ
  pub email : Option ℕ

pub record OauthDb : Type 0 where
  pub db : Db
  pub identities : List UserIdentity

abbrev lift_outcome : {A : Type 0} → List UserIdentity → Outcome Db A → Outcome OauthDb A
lift_outcome ids (returns a db) = returns a (record { db = db; identities = ids })
lift_outcome ids (throws e db) = throws e (record { db = db; identities = ids })

-- A call on the tables of the accounts.
abbrev on_db : {A : Type 0} → Action Db A → Action OauthDb A
on_db m s = lift_outcome s.identities (m s.db)

abbrev pub is_identity : ℕ → ℕ → UserIdentity → Bool
is_identity provider id i = (i.provider == provider) && (i.provider_user_id == id)

abbrev find_user : ℕ → Action OauthDb (Option User)
find_user id = gets (λ s. first (by user_id id) s.db.users)

module _ (env : TokenEnv) where
  -- The user of the address, or a new one with the id `fresh_id`.
  unfoldable pub find_or_create : ℕ → ℕ → ℕ → Action OauthDb ℕ
  find_or_create now fresh_id email = do
    existing ← gets (λ s. first (by email_key email) s.db.users)
    elim existing [
      | some u ↦ pure u.id
      | none ↦ (do
        on_db (
            modify (λ db. record db {
              users =
                  db.users
                  ++ record {
                    id = fresh_id;
                    email = email;
                    password_hash = none;
                    status = active;
                    email_verified_at = some now;
                    is_deleted = false;
                  }
                    ∷ [];
            }))
        pure fresh_id)
    ]

  -- The part after the identity was not found, or its user.
  unfoldable pub link_identity : NewToken → ℕ → ℕ → Profile → Action OauthDb ℕ
  unfolding find_or_create create_refresh_token
  link_identity fresh fresh_id provider profile = do
    email ← or_throw profile.email (bad_request_error oauth_no_email)
    id ← find_or_create fresh.now fresh_id email
    modify (λ s. record s {
      identities =
          s.identities
          ++ record {
            user_id = id;
            provider = provider;
            provider_user_id = profile.provider_user_id;
            email = profile.email;
          }
            ∷ [];
    })
    user ← find_user id
    found ← or_throw user not_found_error
    on_db (create_refresh_token env fresh found.id none)

  -- `oauthLogin`: the raw refresh token.
  unfoldable pub oauth_login : NewToken → ℕ → ℕ → Profile → Action OauthDb ℕ
  unfolding link_identity create_refresh_token
  oauth_login fresh fresh_id provider profile = do
    identity ← gets (λ s. first (is_identity provider profile.provider_user_id) s.identities)
    user ←
        gets (λ s. elim identity [ none ↦ none | some i ↦ first (by user_id i.user_id) s.db.users ])
    elim user [
      | some u ↦ on_db (create_refresh_token env fresh u.id none)
      | none ↦ link_identity fresh fresh_id provider profile
    ]

not_pending : (x : UserStatus) → is_suspended x ≡ true → is_pending x ≡ false
not_pending pending h = cc
not_pending active h = refl
not_pending suspended h = refl

-- A suspended user with a verified address, whose identity at a provider is linked, gets 403 with the
-- right password, but a refresh token through the provider.
pub oauth_login_suspended :
    (env : TokenEnv) (pw : PasswordEnv) (fresh : NewToken) (fresh_id provider : ℕ)
    (profile : Profile) (count : Option ℕ) (password ip : ℕ) (i : UserIdentity) (u : User)
    (s : OauthDb)
    → first (is_identity provider profile.provider_user_id) s.identities ≡ some i
    → first (by user_id i.user_id) s.db.users ≡ some u
    → first (is_active_email u.email) s.db.users ≡ some u
    → is_suspended u.status ≡ true
    → is_some u.email_verified_at ≡ true
    → pw.verify_password password (hash_of pw (some u)) ≡ true
    → (record_failed count).locked ≡ false
    → (error (login env pw fresh count u.email password ip s.db)
        ≡ some (forbidden_error account_suspended))
      × (value (oauth_login env fresh fresh_id provider profile s) ≡ some fresh.raw)
unfolding oauth_login login open_session create_refresh_token
oauth_login_suspended env pw fresh fresh_id provider profile count password ip i u s h k e p v w l =
    (
      rw (l, login)
          (rw (e, login)
            (rw (w, login)
              (rw (not_pending u.status p, login) (rw (v, login) (rw (p, login) refl))))),
      rw (h, oauth_login) (rw (k, oauth_login) refl),
    )
