-- ===== src/Auth/Tokens.antt =====
-- The refresh tokens of modules/auth/service.ts. The hash function and the lifetime are parameters;
-- the random values of a new token are arguments. The access token and the claims are left out, and
-- of the token's row the user agent and the address.
use package.ayo_snbt_backend.Common.{
  ℕ, ◌+◌, ◌*◌, Bool, not, ◌&&◌, Option, none, some, [], ◌∷◌, ◌++◌, ltb, ◌==◌, if◌then◌else◌,
  or_else, is_some, any, first, update,
}
use package.ayo_snbt_backend.Common.Action.{
  Action, pure, throw, throw_if, or_throw, gets, modify, ◌>>=◌, ◌>>◌, unauthorized_error,
  forbidden_error, unauthorized, account_suspended, token_reuse_detected, token_expired,
}
use package.ayo_snbt_backend.Common.Keys.{by}
use package.ayo_snbt_backend.Auth.Data.{User, is_suspended, RefreshToken, Db}

-- The values that are new in a call: the row's id, the raw token and the family, and the clock.
pub record NewToken : Type 0 where
  pub now : ℕ
  pub id : ℕ
  pub raw : ℕ
  pub family : ℕ

abbrev pub hash_key : RefreshToken → ℕ
hash_key t = t.token_hash

abbrev pub family_key : RefreshToken → ℕ
family_key t = t.family_id

abbrev pub token_id : RefreshToken → ℕ
token_id t = t.id

abbrev pub is_revoked : RefreshToken → Bool
is_revoked t = is_some t.revoked_at

abbrev pub set_revoked : ℕ → RefreshToken → RefreshToken
set_revoked now t = record t { revoked_at = some now }

-- `UPDATE refresh_tokens SET revoked_at = now WHERE p`.
abbrev pub revoke_where : (RefreshToken → Bool) → ℕ → Db → Db
revoke_where p now db = record db { refresh_tokens = update p (set_revoked now) db.refresh_tokens }

-- The environment: `hashRefreshToken` and `REFRESH_TOKEN_TTL_DAYS`.
pub record TokenEnv : Type 0 where
  pub hash_refresh_token : ℕ → ℕ
  pub ttl_days : ℕ

module _ (env : TokenEnv) where
  unfoldable pub new_token : NewToken → ℕ → Option ℕ → RefreshToken
  new_token fresh user family = record {
    id = fresh.id;
    user_id = user;
    token_hash = env.hash_refresh_token fresh.raw;
    family_id = or_else family fresh.family;
    expires_at = fresh.now + env.ttl_days * 86_400_000;
    revoked_at = none;
  }

  -- `createRefreshToken`: the raw token.
  unfoldable pub create_refresh_token : NewToken → ℕ → Option ℕ → Action Db ℕ
  unfolding new_token
  create_refresh_token fresh user family = do
    modify
        (λ db. record db { refresh_tokens = db.refresh_tokens ++ new_token fresh user family ∷ [] })
    pure fresh.raw

  -- `revokeRefreshToken`, which `logout` calls; an empty token is none.
  unfoldable pub revoke_refresh_token : ℕ → ℕ → Action Db (Unit {0})
  revoke_refresh_token raw now =
      modify (revoke_where (by hash_key (env.hash_refresh_token raw)) now)

  unfoldable pub logout : Option ℕ → ℕ → Action Db (Unit {0})
  unfolding revoke_refresh_token
  logout none now = pure tt
  logout (some raw) now = revoke_refresh_token raw now

  -- `revokeFamily` and the error that follows it.
  unfoldable pub detect_reuse : ℕ → ℕ → Action Db ℕ
  detect_reuse family now = do
    modify (revoke_where (by family_key family) now)
    throw (unauthorized_error token_reuse_detected)

  abbrev pub is_active_id : ℕ → User → Bool
  is_active_id id u = (u.id == id) && not u.is_deleted

  -- The row that the conditional update of the rotation finds: the token, not revoked.
  abbrev pub is_rotatable : ℕ → RefreshToken → Bool
  is_rotatable id t = (t.id == id) && not (is_revoked t)

  -- The part of `refresh` after the user has been found.
  unfoldable pub rotate : NewToken → User → RefreshToken → Action Db ℕ
  unfolding detect_reuse create_refresh_token
  rotate fresh user token = do
    rotated ← gets (λ db. any (is_rotatable token.id) db.refresh_tokens)
    modify (revoke_where (is_rotatable token.id) fresh.now)
    if not rotated
        then detect_reuse token.family_id fresh.now
        else create_refresh_token fresh user.id (some token.family_id)

  -- The part of `refresh` after the token has been found.
  unfoldable pub refresh_found : NewToken → RefreshToken → Action Db ℕ
  unfolding detect_reuse rotate
  refresh_found fresh token = do
    if is_revoked token then detect_reuse token.family_id fresh.now else (do
      throw_if (ltb token.expires_at fresh.now) (unauthorized_error token_expired)
      users ← gets (λ db. db.users)
      user ← or_throw (first (is_active_id token.user_id) users) (unauthorized_error unauthorized)
      throw_if (is_suspended user.status) (forbidden_error account_suspended)
      rotate fresh user token)

  -- `refresh`: the new raw token.
  unfoldable pub refresh : NewToken → ℕ → Action Db ℕ
  unfolding refresh_found
  refresh fresh raw = do
    tokens ← gets (λ db. db.refresh_tokens)
    token ←
        or_throw (first (by hash_key (env.hash_refresh_token raw)) tokens)
          (unauthorized_error unauthorized)
    refresh_found fresh token
