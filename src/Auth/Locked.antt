-- ===== src/Auth/Locked.antt =====
-- Who gets a session: the lockout, the state of the account, and the effect of a password reset.
use package.ayo_snbt_backend.Common.{
  ℕ, ◌≤◌, ◌≡◌, ◌↔◌, refl, inl, inr, Bool, true, false, Option, none, some, arith, first, ◌==◌,
  Bool-cases, Option-cases, ==_refl, is_some, ltb, first-update,
}
use package.ayo_snbt_backend.Common.Action.{after, error, value, bad_request_error, bad_request}
use package.ayo_snbt_backend.Common.Keys.{by, first-by-update}
use package.ayo_snbt_backend.Auth.Data.{
  User, active, is_pending, is_suspended, EmailVerification, Db,
}
use package.ayo_snbt_backend.Auth.Lockout.{record_failed, compute_lockout_status}
use package.ayo_snbt_backend.Auth.Tokens.{NewToken, TokenEnv, create_refresh_token}
use package.ayo_snbt_backend.Auth.Accounts.{
  PasswordEnv, open_session, login, verify_email, is_active_email, hash_of, accepted, user_id,
}

-- The lockout holds exactly from the fifth count on, and its duration never falls as the count
-- grows.
pub lockout_grows :
    (m n : ℕ)
    → m ≤ n
    → (((compute_lockout_status n).locked ≡ true) ↔ (5 ≤ n))
      × ((compute_lockout_status m).lock_duration_ms ≤ (compute_lockout_status n).lock_duration_ms)
unfolding compute_lockout_status
lockout_grows m n h = (ground arith, ground arith)

-- The account may sign in: it is found, the password is right, the address is verified and the
-- account neither pending nor suspended.
abbrev pub MaySignIn : PasswordEnv → ℕ → ℕ → Db → Type 0
MaySignIn pw email password db =
    (u : User) × (first (is_active_email email) db.users ≡ some u)
    × (pw.verify_password password (hash_of pw (some u)) ≡ true)
    × (is_pending u.status ≡ false)
    × (is_suspended u.status ≡ false)
    × (is_some u.email_verified_at ≡ true)

accepted_lem :
    (valid : Bool) (o : Option User) (u : User)
    → accepted valid o ≡ some u
    → (o ≡ some u) × (valid ≡ true)
accepted_lem true none u h = cc
accepted_lem false none u h = cc
accepted_lem true (some v) u h = (h, refl)
accepted_lem false (some v) u h = cc

module _ (env : TokenEnv) (pw : PasswordEnv) (fresh : NewToken) (email password ip : ℕ) where
  signs_in :
      (count : Option ℕ) (db : Db)
      → (record_failed count).locked ≡ false
      → MaySignIn pw email password db
      → value (login env pw fresh count email password ip db) ≡ some fresh.raw
  unfolding login open_session create_refresh_token
  signs_in count db l m =
      rw (l, login)
        (rw ((m.1), login)
          (rw ((m.2), login) (rw ((m.3), login) (rw ((m.5), login) (rw ((m.4), login) refl)))))

  signed_in :
      (count : Option ℕ) (raw : ℕ) (db : Db)
      → value (login env pw fresh count email password ip db) ≡ some raw
      → ((record_failed count).locked ≡ false) × MaySignIn pw email password db
  unfolding login open_session create_refresh_token
  signed_in count raw db h = elim (Bool-cases (record_failed count).locked) [
    | inl l ↦ cc (rw (l, login) at h)
    | inr l ↦ (
      l,
      elim (Option-cases (
          accepted
            (pw.verify_password password (hash_of pw (first (is_active_email email) db.users)))
            (first (is_active_email email) db.users))) [
              | inl e ↦ cc (rw (e, login) at (rw (l, login) at h))
              | inr (u, e) ↦
                  allowed u (accepted_lem _ _ u e) (rw (e, login) at (rw (l, login) at h))
            ],
    )
  ]
    where
      allowed :
          (u : User)
          → (first (is_active_email email) db.users ≡ some u)
            × (pw.verify_password password (hash_of pw (first (is_active_email email) db.users))
                ≡ true)
          → value (open_session env pw fresh email ip u db) ≡ some raw
          → MaySignIn pw email password db
      allowed u k g = elim (Bool-cases (is_pending u.status)) [
        | inl p ↦ cc (rw (p, open_session) at g)
        | inr p ↦ elim (Bool-cases (is_some u.email_verified_at)) [
          | inr v ↦ cc (rw (v, open_session) at (rw (p, open_session) at g))
          | inl v ↦ elim (Bool-cases (is_suspended u.status)) [
            | inl s ↦
                cc (rw (s, open_session) at (rw (v, open_session) at (rw (p, open_session) at g)))
            | inr s ↦ (u, k.0, rw (k.0) at k.1, p, s, v)
          ]
        ]
      ]

  -- `login` returns exactly where the count of attempts does not lock it out and the account may sign
  -- in: it is found, the password is right, the address is verified, and the account is neither
  -- pending nor suspended.
  pub login_iff :
      (count : Option ℕ) (db : Db)
      → (value (login env pw fresh count email password ip db) ≡ some fresh.raw)
        ↔ (((record_failed count).locked ≡ false) × MaySignIn pw email password db)
  login_iff count db = (signed_in count fresh.raw db, λ k. signs_in count db k.0 k.1)

-- A verification token that is found, not used and not expired makes its account active whatever the
-- account's status is, a suspended one too, and is used afterwards.
pub verify_email_lem :
    (env : TokenEnv) (pw : PasswordEnv) (token now : ℕ) (item : EmailVerification) (u : User)
    (db : Db)
    → first
        (λ (v : EmailVerification). v.token_hash == env.hash_refresh_token token)
        db.email_verifications
      ≡ some item
    → is_some item.used_at ≡ false
    → ltb item.expires_at now ≡ false
    → first (by user_id item.user_id) db.users ≡ some u
    → (first (by user_id item.user_id) (after (verify_email env pw token now db)).users
        ≡ some (record u { email_verified_at = some now; status = active }))
      × (error (verify_email env pw token now (after (verify_email env pw token now db)))
          ≡ some (bad_request_error bad_request))
unfolding verify_email
verify_email_lem env pw token now item u db e n x f =
    rw (e, verify_email)
      (rw (n, verify_email)
        (rw (x, verify_email)
          (
            rw
                (first-by-update user_id item.user_id item.user_id
                  (λ (k : User). record k { email_verified_at = some now; status = active })
                  db.users (λ k. refl))
                (rw f (rw (==_refl item.user_id) refl)),
            rw
                (first-update (λ (v : EmailVerification). v.id == item.id)
                  (λ (v : EmailVerification). v.token_hash == env.hash_refresh_token token)
                  (λ (v : EmailVerification). record v { used_at = some now })
                  db.email_verifications (λ k. refl))
                (rw e (rw (==_refl item.id) refl)),
          )))
