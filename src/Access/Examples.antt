-- ===== src/Access/Examples.antt =====
-- The guards and the roles at concrete requests.
use package.ayo_snbt_backend.Common.{◌==◌, if◌then◌else◌, ◌≡◌, ◌↔◌, false, none, some, [], ◌∷◌}
use package.ayo_snbt_backend.Common.Action.{value}
use package.ayo_snbt_backend.Access.{
  payment_read, Request, VerifyAccessToken, guards, IsLetThrough, guards_iff,
}

-- A verification that knows one token.
abbrev verify : VerifyAccessToken
verify t = if t == 5 then some (record { id = 1; permissions = payment_read ∷ [] }) else none

abbrev request : Request
request = record {
  user = none;
  access_cookie = some 5;
  csrf_cookie = some 8;
  csrf_header = some 8;
  is_safe_method = false;
  is_csrf_exempt = false;
}

guards_iff_example :
    (value (guards verify payment_read request) ≡ some tt)
    ↔ IsLetThrough verify payment_read request
guards_iff_example = guards_iff verify payment_read request
