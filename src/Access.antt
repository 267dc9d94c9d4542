-- ===== src/Access.antt =====
-- shared/rbac/permissions.ts and the guards of shared/middleware/auth.ts. The verification of an
-- access token is a parameter; tokens, ids and addresses are numbers, an empty header is none.
mod Examples
use package.ayo_snbt_backend.Common.{
  ℕ, ◌≡◌, ◌↔◌, refl, inl, inr, Bool, true, false, not, ◌&&◌, ◌||◌, Option, none, some, List, [],
  ◌∷◌, arith, ◌==◌, if◌then◌else◌, any, Bool-cases, Option-cases,
}
use package.ayo_snbt_backend.Common.Action.{
  value, Action, AppError, unauthorized_error, forbidden_error, unauthorized, token_expired,
  forbidden, csrf_token_mismatch, returns, pure, throw, throw_if, or_throw, gets, modify, ◌>>=◌,
  ◌>>◌,
}

pub data Permission : Type 0 where
  user_read user_update user_manage course_create course_update course_publish : Permission
  course_delete question_manage simulation_manage video_upload video_transcode : Permission
  payment_read payment_refund chat_moderate iam_manage analytics_read : Permission

-- The place of a permission in the registry.
abbrev place : Permission → ℕ
place user_read = 0
place user_update = 1
place user_manage = 2
place course_create = 3
place course_update = 4
place course_publish = 5
place course_delete = 6
place question_manage = 7
place simulation_manage = 8
place video_upload = 9
place video_transcode = 10
place payment_read = 11
place payment_refund = 12
place chat_moderate = 13
place iam_manage = 14
place analytics_read = 15

pub data RoleName : Type 0 where
  student mentor admin : RoleName

-- `ROLE_SEED`.
unfoldable pub role_seed : RoleName → List Permission
role_seed student = user_read ∷ user_update ∷ video_upload ∷ payment_read ∷ []
role_seed mentor =
    user_read ∷ user_update ∷ course_create ∷ course_update ∷ course_publish ∷ question_manage
    ∷ simulation_manage ∷ video_upload ∷ video_transcode ∷ payment_read ∷ []
role_seed admin =
    user_read ∷ user_update ∷ user_manage ∷ course_create ∷ course_update ∷ course_publish
    ∷ course_delete ∷ question_manage ∷ simulation_manage ∷ video_upload ∷ video_transcode
    ∷ payment_read ∷ payment_refund ∷ chat_moderate ∷ iam_manage ∷ analytics_read ∷ []

-- `hasPermission`.
unfoldable pub has_permission : List Permission → Permission → Bool
has_permission permissions required = any (λ p. place p == place required) permissions

pub record Claims : Type 0 where
  pub id : ℕ
  pub permissions : List Permission

pub record Request : Type 0 where
  pub user : Option Claims
  pub access_cookie : Option ℕ
  pub csrf_cookie : Option ℕ
  pub csrf_header : Option ℕ
  pub is_safe_method : Bool
  pub is_csrf_exempt : Bool

-- `verifyAccessToken`: none where it throws.
abbrev pub VerifyAccessToken : Type 0
VerifyAccessToken = ℕ → Option Claims

module _ (verify : VerifyAccessToken) where
  -- `authGuard`.
  unfoldable pub auth_guard : Action Request (Unit {0})
  auth_guard = do
    cookie ← gets (λ r. r.access_cookie)
    token ← or_throw cookie (unauthorized_error unauthorized)
    claims ← or_throw (verify token) (unauthorized_error token_expired)
    modify (λ r. record r { user = some claims })

  -- `optionalAuth`: an invalid token is ignored.
  unfoldable pub optional_auth : Request → Request
  optional_auth r = elim r.access_cookie [
    | none ↦ r
    | some token ↦ elim (verify token) [ none ↦ r | some claims ↦ record r { user = some claims } ]
  ]

-- `requirePermission`.
unfoldable pub require_permission : Permission → Action Request (Unit {0})
unfolding has_permission
require_permission required = do
  user ← gets (λ r. r.user)
  claims ← or_throw user (unauthorized_error unauthorized)
  throw_if (not (has_permission claims.permissions required)) (forbidden_error forbidden)

-- `!cookie || !header || cookie !== header`, negated.
abbrev pub agree : Option ℕ → Option ℕ → Bool
agree none header = false
agree (some c) none = false
agree (some c) (some h) = c == h

-- `csrfGuard`.
unfoldable pub csrf_guard : Action Request (Unit {0})
csrf_guard = do
  skipped ← gets (λ r. r.is_safe_method || r.is_csrf_exempt)
  matches ← gets (λ r. agree r.csrf_cookie r.csrf_header)
  throw_if (not skipped && not matches) (record { status_code = 403; code = csrf_token_mismatch })

-- The guards of a protected route.
abbrev pub guards : VerifyAccessToken → Permission → Action Request (Unit {0})
guards verify required = do auth_guard verify; csrf_guard; require_permission required

-- Every permission of a student is a mentor's, and every permission of a mentor an administrator's.
pub roles_nest :
    (p : Permission)
    → (has_permission (role_seed student) p ≡ true → has_permission (role_seed mentor) p ≡ true)
      × (has_permission (role_seed mentor) p ≡ true → has_permission (role_seed admin) p ≡ true)
unfolding has_permission role_seed
roles_nest p = (λ h. ground (arith, h), λ h. ground (arith, h))

-- The route is let through: the cookie's token is verified, its claims have the permission, and the
-- method is safe, the route exempt, or the header repeats the cookie.
abbrev pub IsLetThrough : VerifyAccessToken → Permission → Request → Type 0
IsLetThrough verify required r =
    (t : ℕ) × (c : Claims) × (r.access_cookie ≡ some t)
    × (verify t ≡ some c)
    × ((not (r.is_safe_method || r.is_csrf_exempt) && not (agree r.csrf_cookie r.csrf_header))
        ≡ false)
    × (any (λ p. place p == place required) c.permissions ≡ true)

let_through :
    (verify : VerifyAccessToken) (required : Permission) (r : Request)
    → IsLetThrough verify required r
    → value (guards verify required r) ≡ some tt
unfolding auth_guard csrf_guard require_permission has_permission
let_through verify required r h =
    rw (h.2, auth_guard) (rw (h.3, auth_guard) (rw (h.4) (rw (h.5) refl)))

passed :
    (verify : VerifyAccessToken) (required : Permission) (r : Request)
    → value (guards verify required r) ≡ some tt
    → IsLetThrough verify required r
unfolding auth_guard csrf_guard require_permission has_permission
passed verify required r h = elim (Option-cases r.access_cookie) [
  | inl e ↦ cc (rw (e, auth_guard) at h)
  | inr (t, e) ↦ elim (Option-cases (verify t)) [
    | inl v ↦ cc (rw (v, auth_guard) at (rw (e, auth_guard) at h))
    | inr (c, v) ↦
        elim (Bool-cases
          (not (r.is_safe_method || r.is_csrf_exempt) && not (agree r.csrf_cookie r.csrf_header))) [
            | inl s ↦ cc (rw s at (rw (v, auth_guard) at (rw (e, auth_guard) at h)))
            | inr s ↦ elim (Bool-cases (any (λ p. place p == place required) c.permissions)) [
              | inr q ↦ cc (rw q at (rw s at (rw (v, auth_guard) at (rw (e, auth_guard) at h))))
              | inl q ↦ (t, c, e, v, s, q)
            ]
          ]
  ]
]

-- A protected route is reached exactly where the access token is verified, its claims have the
-- permission, and the request is safe, exempt, or carries the header that repeats the cookie.
pub guards_iff :
    (verify : VerifyAccessToken) (required : Permission) (r : Request)
    → (value (guards verify required r) ≡ some tt) ↔ IsLetThrough verify required r
guards_iff verify required r = (passed verify required r, let_through verify required r)
