-- ===== src/Auth/Family.antt =====
-- A family of refresh tokens that was revoked as a whole stays revoked.
use package.ayo_snbt_backend.Common.{
  ℕ, ◌≡◌, ap, refl, inl, inr, Bool, true, false, not, Option, none, some, List, [], ◌∷◌, ◌++◌,
  arith, first, update, any, any-append, select, ◌==◌, Bool-cases, Option-cases, ==_iff, All,
  All-update, is_some, ltb, ◌||◌,
}
use package.ayo_snbt_backend.Common.Action.{
  after, error, unauthorized_error, token_reuse_detected, throws,
}
use package.ayo_snbt_backend.Common.Keys.{by, any-by-update, any_of_first}
use package.ayo_snbt_backend.Auth.Data.{
  User, is_suspended, RefreshToken, Db, PasswordReset, is_pending,
}
use package.ayo_snbt_backend.Auth.Tokens.{
  NewToken, TokenEnv, family_key, hash_key, token_id, is_revoked, is_rotatable, set_revoked,
  revoke_where, new_token, create_refresh_token, detect_reuse, rotate, refresh_found, refresh,
  logout, revoke_refresh_token, is_active_id,
}
use package.ayo_snbt_backend.Auth.Accounts.{
  PasswordEnv, open_session, accepted, hash_of, is_active_email, email_key, register, verify_email,
  login, forgot_password, reset_password, revoke_each, email_key,
}
use package.ayo_snbt_backend.Auth.Lockout.{record_failed}
use package.ayo_snbt_backend.Auth.Step.{
  Call, registers, verifies, logs_in, refreshes, logs_out, forgets, resets, step, run,
}

-- The family has tokens, and all of them are revoked.
abbrev pub IsDead : ℕ → List RefreshToken → Type 0
IsDead f ts =
    (any (by family_key f) ts ≡ true)
    × All (λ t. (t.family_id == f) ≡ true → is_revoked t ≡ true) ts

revoke-IsDead :
    (f now : ℕ) (p : RefreshToken → Bool) (ts : List RefreshToken)
    → IsDead f ts
    → IsDead f (update p (set_revoked now) ts)
revoke-IsDead f now p ts d = (
  rw (any-by-update family_key p (set_revoked now) f ts (λ x. refl)) d.0,
  All-update _ p (set_revoked now) ts (λ x e h k. refl) d.1,
)

-- Revoking the family leaves it dead, where it has a token.
revoke_family-IsDead :
    (f now : ℕ) (ts : List RefreshToken)
    → any (by family_key f) ts ≡ true
    → IsDead f (update (by family_key f) (set_revoked now) ts)
revoke_family-IsDead f now ts h = (
  rw (any-by-update family_key (by family_key f) (set_revoked now) f ts (λ x. refl)) h,
  closed ts,
)
  where
    closed :
        (xs : List RefreshToken)
        → All
            (λ t. (t.family_id == f) ≡ true → is_revoked t ≡ true)
            (update (by family_key f) (set_revoked now) xs)
    closed [] = tt
    closed (x ∷ xs) = elim (Bool-cases (x.family_id == f)) [
      | inl e ↦ rw e ((λ k. refl), closed xs)
      | inr e ↦ rw e ((λ k. cc), closed xs)
    ]

snoc-IsDead :
    (f : ℕ) (t : RefreshToken) (ts : List RefreshToken)
    → (t.family_id == f) ≡ false
    → IsDead f ts
    → IsDead f (ts ++ t ∷ [])
snoc-IsDead f t ts ne d =
    (ground (arith, any-append (by family_key f) ts (t ∷ []), d.0), others ts d.1)
  where
    others :
        (xs : List RefreshToken)
        → All (λ t. (t.family_id == f) ≡ true → is_revoked t ≡ true) xs
        → All (λ t. (t.family_id == f) ≡ true → is_revoked t ≡ true) (xs ++ t ∷ [])
    others [] a = ((λ k. cc), tt)
    others (x ∷ xs) a = (a.0, others xs a.1)

-- A token that is found is no token of a dead family, or is revoked.
found-IsDead :
    (f : ℕ) (q : RefreshToken → Bool) (t : RefreshToken) (ts : List RefreshToken)
    → All (λ t. (t.family_id == f) ≡ true → is_revoked t ≡ true) ts
    → first q ts ≡ some t
    → (t.family_id == f) ≡ true
    → is_revoked t ≡ true
found-IsDead f q t [] a e h = cc
found-IsDead f q t (x ∷ xs) a e h = elim (Bool-cases (q x)) [
  | inl c ↦ ground (arith, a.0)
  | inr c ↦ ground (arith, found-IsDead f q t xs a.1)
]

-- A family that is new is not one that has tokens.
new_family :
    (f g : ℕ) (ts : List RefreshToken)
    → any (by family_key g) ts ≡ false
    → any (by family_key f) ts ≡ true
    → (g == f) ≡ false
new_family f g ts n h = elim (Bool-cases (g == f)) [
  | inr e ↦ e
  | inl e ↦ ground (arith, ap (λ k. any (by family_key k) ts) ((==_iff g f).0 e))
]

module _ (env : TokenEnv) (f : ℕ) where
  rotate-IsDead :
      (fresh : NewToken) (user : User) (t : RefreshToken) (db : Db)
      → (t.family_id == f) ≡ false
      → IsDead f db.refresh_tokens
      → IsDead f (after (rotate env fresh user t db)).refresh_tokens
  unfolding rotate detect_reuse create_refresh_token new_token
  rotate-IsDead fresh user t db ne d =
      elim (Bool-cases (any (is_rotatable env t.id) db.refresh_tokens)) [
        | inr e ↦
            rw (e, rotate)
              (revoke-IsDead f fresh.now _ _ (revoke-IsDead f fresh.now _ db.refresh_tokens d))
        | inl e ↦
            rw (e, rotate) (snoc-IsDead f _ _ ne (revoke-IsDead f fresh.now _ db.refresh_tokens d))
      ]

  refresh_found-IsDead :
      (fresh : NewToken) (t : RefreshToken) (db : Db)
      → ((t.family_id == f) ≡ true → is_revoked t ≡ true)
      → IsDead f db.refresh_tokens
      → IsDead f (after (refresh_found env fresh t db)).refresh_tokens
  unfolding refresh_found detect_reuse
  refresh_found-IsDead fresh t db h d = elim (Bool-cases (is_revoked t)) [
    | inl r ↦ rw (r, refresh_found) (revoke-IsDead f fresh.now _ db.refresh_tokens d)
    | inr r ↦
        rw (r, refresh_found)
          (elim (Bool-cases (ltb t.expires_at fresh.now)) [
            | inl x ↦ rw x d
            | inr x ↦ rw x (elim (Option-cases (first (is_active_id env t.user_id) db.users)) [
              | inl e ↦ rw e d
              | inr (u, e) ↦ rw e (elim (Bool-cases (is_suspended u.status)) [
                | inl s ↦ rw s d
                | inr s ↦ rw s (
                    rotate-IsDead fresh u t db (ground (arith, h, Bool-cases (t.family_id == f))) d)
              ])
            ])
          ])
  ]

  refresh-IsDead :
      (fresh : NewToken) (raw : ℕ) (db : Db)
      → IsDead f db.refresh_tokens
      → IsDead f (after (refresh env fresh raw db)).refresh_tokens
  unfolding refresh
  refresh-IsDead fresh raw db d =
      elim (Option-cases (first (by hash_key (env.hash_refresh_token raw)) db.refresh_tokens)) [
        | inl e ↦ rw (e, refresh) d
        | inr (t, e) ↦
            rw (e, refresh)
              (refresh_found-IsDead fresh t db (found-IsDead f _ t db.refresh_tokens d.1 e) d)
      ]

  module _ (pw : PasswordEnv) where
    register-tokens :
        (fresh : NewToken) (id email password : ℕ) (db : Db)
        → (after (register env pw fresh id email password db)).refresh_tokens ≡ db.refresh_tokens
    unfolding register
    register-tokens fresh id email password db = ground arith

    verify_email-tokens :
        (token now : ℕ) (db : Db)
        → (after (verify_email env pw token now db)).refresh_tokens ≡ db.refresh_tokens
    unfolding verify_email
    verify_email-tokens token now db = ground arith

    forgot_password-tokens :
        (fresh : NewToken) (email : ℕ) (db : Db)
        → (after (forgot_password env pw fresh email db)).refresh_tokens ≡ db.refresh_tokens
    unfolding forgot_password
    forgot_password-tokens fresh email db = ground arith

    login-IsDead :
        (fresh : NewToken) (count : Option ℕ) (email password ip : ℕ) (db : Db)
        → any (by family_key fresh.family) db.refresh_tokens ≡ false
        → IsDead f db.refresh_tokens
        → IsDead f (after (login env pw fresh count email password ip db)).refresh_tokens
    unfolding login open_session create_refresh_token new_token
    login-IsDead fresh count email password ip db n d =
        elim (Bool-cases (record_failed count).locked) [
          | inl l ↦ rw (l, login) d
          | inr l ↦
              rw (l, login)
                (elim (Option-cases (
                  accepted
                    (pw.verify_password password
                      (hash_of pw (first (is_active_email email) db.users)))
                    (first (is_active_email email) db.users))) [
                      | inl e ↦ rw e d
                      | inr (u, e) ↦
                          rw e
                            (elim (Bool-cases
                              (is_pending u.status || not (is_some u.email_verified_at))) [
                                | inl v ↦ rw v d
                                | inr v ↦ rw v (elim (Bool-cases (is_suspended u.status)) [
                                  | inl s ↦ rw s d
                                  | inr s ↦ rw s (
                                      snoc-IsDead f _ db.refresh_tokens
                                        (new_family f fresh.family db.refresh_tokens n d.0) d)
                                ])
                              ])
                    ])
        ]

    revoke_each-IsDead :
        (ts : List RefreshToken) (now : ℕ) (db : Db)
        → IsDead f db.refresh_tokens
        → IsDead f (revoke_each env pw ts now db).refresh_tokens
    unfolding revoke_each
    revoke_each-IsDead [] now db d = d
    revoke_each-IsDead (t ∷ ts) now db d =
        revoke_each-IsDead ts now (revoke_where (by token_id t.id) now db)
          (revoke-IsDead f now (by token_id t.id) db.refresh_tokens d)

    reset_password-IsDead :
        (token new_password now : ℕ) (db : Db)
        → IsDead f db.refresh_tokens
        → IsDead f (after (reset_password env pw token new_password now db)).refresh_tokens
    unfolding reset_password
    reset_password-IsDead token new_password now db d =
        elim (Option-cases (
          first (λ (r : PasswordReset). r.token_hash == env.hash_refresh_token token)
            db.password_resets)) [
              | inl e ↦ rw (e, reset_password) d
              | inr (r, e) ↦
                  rw (e, reset_password)
                    (elim (Bool-cases (is_some r.used_at)) [
                      | inl s ↦ rw s d
                      | inr s ↦ rw s (elim (Bool-cases (ltb r.expires_at now)) [
                        | inl x ↦ rw x d
                        | inr x ↦
                            rw x (elim (Option-cases (first (by email_key r.email) db.users)) [
                              | inl u ↦ rw u d
                              | inr (u, k) ↦ rw k (
                                  revoke_each-IsDead
                                    (select (λ t. t.user_id == u.id) db.refresh_tokens) now _ d)
                            ])
                      ])
                    ])
            ]

    logout-IsDead :
        (raw : Option ℕ) (now : ℕ) (db : Db)
        → IsDead f db.refresh_tokens
        → IsDead f (after (logout env raw now db)).refresh_tokens
    unfolding logout revoke_refresh_token
    logout-IsDead none now db d = d
    logout-IsDead (some raw) now db d = revoke-IsDead f now _ db.refresh_tokens d

-- The family that a login brings is new.
abbrev pub IsFresh : Db → Call → Type 0
IsFresh db (logs_in fresh count email password ip) =
    any (by family_key fresh.family) db.refresh_tokens ≡ false
IsFresh db (registers fresh id email password) = Unit
IsFresh db (verifies token now) = Unit
IsFresh db (refreshes fresh raw) = Unit
IsFresh db (logs_out raw now) = Unit
IsFresh db (forgets fresh email) = Unit
IsFresh db (resets token new_password now) = Unit

abbrev pub AllFresh : TokenEnv → PasswordEnv → Db → List Call → Type 0
AllFresh env pw db [] = Unit
AllFresh env pw db (c ∷ cs) = IsFresh db c × AllFresh env pw (step env pw db c) cs

module _ (env : TokenEnv) (pw : PasswordEnv) (f : ℕ) where
  step-IsDead :
      (db : Db) (c : Call)
      → IsFresh db c
      → IsDead f db.refresh_tokens
      → IsDead f (step env pw db c).refresh_tokens
  unfolding step
  step-IsDead db (registers fresh id email password) n d =
      rw (register-tokens env f pw fresh id email password db) d
  step-IsDead db (verifies token now) n d = rw (verify_email-tokens env f pw token now db) d
  step-IsDead db (logs_in fresh count email password ip) n d =
      login-IsDead env f pw fresh count email password ip db n d
  step-IsDead db (refreshes fresh raw) n d = refresh-IsDead env f fresh raw db d
  step-IsDead db (logs_out raw now) n d = logout-IsDead env f pw raw now db d
  step-IsDead db (forgets fresh email) n d = rw (forgot_password-tokens env f pw fresh email db) d
  step-IsDead db (resets token new_password now) n d =
      reset_password-IsDead env f pw token new_password now db d

  run-IsDead :
      (db : Db) (cs : List Call)
      → AllFresh env pw db cs
      → IsDead f db.refresh_tokens
      → IsDead f (run env pw db cs).refresh_tokens
  unfolding run
  run-IsDead db [] n d = d
  run-IsDead db (c ∷ cs) n d = run-IsDead (step env pw db c) cs n.1 (step-IsDead db c n.0 d)

refresh_revoked :
    (env : TokenEnv) (fresh : NewToken) (raw : ℕ) (t : RefreshToken) (db : Db)
    → first (by hash_key (env.hash_refresh_token raw)) db.refresh_tokens ≡ some t
    → is_revoked t ≡ true
    → refresh env fresh raw db
      ≡ throws
          (unauthorized_error token_reuse_detected)
          (revoke_where (by family_key t.family_id) fresh.now db)
unfolding refresh refresh_found detect_reuse
refresh_revoked env fresh raw t db e r = rw (e, refresh) (rw (r, refresh_found) refl)

-- Once a revoked token has been presented to `refresh`, every later `refresh` with a token of its
-- family is refused as reuse, whatever calls came between, where a login brings a new family.
pub reuse_ends_family :
    (env : TokenEnv) (pw : PasswordEnv) (fresh : NewToken) (raw : ℕ) (token : RefreshToken)
    (db : Db) (cs : List Call) (later : NewToken) (other : ℕ) (t : RefreshToken)
    → first (by hash_key (env.hash_refresh_token raw)) db.refresh_tokens ≡ some token
    → is_revoked token ≡ true
    → AllFresh env pw (after (refresh env fresh raw db)) cs
    → first
        (by hash_key (env.hash_refresh_token other))
        (run env pw (after (refresh env fresh raw db)) cs).refresh_tokens
      ≡ some t
    → (t.family_id == token.family_id) ≡ true
    → error (refresh env later other (run env pw (after (refresh env fresh raw db)) cs))
      ≡ some (unauthorized_error token_reuse_detected)
reuse_ends_family env pw fresh raw token db cs later other t e r n found same =
    rw
      (refresh_revoked env later other t (run env pw (after (refresh env fresh raw db)) cs) found
        (found-IsDead token.family_id _ t _ dead.1 found same))
      refl
  where
    start : IsDead token.family_id (after (refresh env fresh raw db)).refresh_tokens
    start = rw (refresh_revoked env fresh raw token db e r) (
        revoke_family-IsDead token.family_id fresh.now db.refresh_tokens
          (any_of_first family_key _ db.refresh_tokens token e))

    dead : IsDead token.family_id (run env pw (after (refresh env fresh raw db)) cs).refresh_tokens
    dead = run-IsDead env pw token.family_id (after (refresh env fresh raw db)) cs n start
