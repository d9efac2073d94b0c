-- ===== src/Http/Authn.antt =====
-- Who a request comes from: crates/api/src/middleware/auth.rs. A message is its key; its translation
-- is not modelled. `to_str` of a header value, and `DateTime::from_timestamp`, are parameters.
pub mod Kinds
mod Tests
use Prim.Native.Char.{code}
use Prim.Native.String.{[], ◌∷◌}
use kokkeak_api.Dict.{Dict, lookup}
use kokkeak_api.Http.Tokens.{JwtService, verify}
use kokkeak_api.Auth.Types.{
  Result, ok, err, Claims, TokenKind, AuthSession, access, refresh, AuthError, session_has_role,
  token_expired, invalid_token,
}
use kokkeak_api.User.{Role}
use kokkeak_api.Prelude.{
  ℕ, none, some, true, false, [], if◌then◌else◌, ◌∷◌, Bool, Option, List, String, ◌==◌, str_eq,
}

pub data Rejection : Type 0 where
  -- The key of the message, and the code.
  unauthorized : String → String → Rejection
  forbidden : String → Rejection

-- `s.strip_prefix(p)`: what `s.starts_with(p)` and `&s[p.len()..]` give together.
pub strip_prefix : String → String → Option String
strip_prefix [] s = some s
strip_prefix (p ∷ ps) [] = none
strip_prefix (p ∷ ps) (c ∷ s) =
    let rest = strip_prefix ps s in if code p == code c then rest else none

abbrev bearer_of : Option String → Option String
bearer_of none = none
bearer_of (some s) = strip_prefix "Bearer " s

-- The error of `verify`, as a response.
pub rejection_of : AuthError → Rejection
rejection_of token_expired = unauthorized "err_auth.token_expired" "token_expired"
rejection_of e = unauthorized "err_auth.invalid_token" "invalid_token"

pub data Extracted (A : Type 0) : Type 0 where
  admitted : A → Extracted A
  rejected : Rejection → Extracted A

abbrev kind_is_access : TokenKind → Bool
kind_is_access access = true
kind_is_access refresh = false

abbrev or_now : ℕ → Option ℕ → ℕ
or_now now none = now
or_now now (some t) = t

module _ (sv : JwtService) (to_str : List ℕ → Option String) (from_timestamp : ℕ → Option ℕ) where
  pub token_of : Dict (List ℕ) → Option String
  token_of headers = elim (lookup "authorization" headers) [
    | none ↦ none
    | some v ↦ bearer_of (to_str v)
  ]

  pub session_of : ℕ → Claims → AuthSession
  session_of now claims = record {
    user_id = claims.sub;
    roles = claims.roles;
    expires_at = or_now now (from_timestamp claims.exp);
    scope = claims.scope;
    jti = claims.jti;
  }

  -- `AuthnUser::from_request_parts`.
  pub from_request_parts : ℕ → Dict (List ℕ) → Extracted AuthSession
  from_request_parts now headers = elim (token_of headers) [
    | none ↦ rejected (unauthorized "err_auth.missing_header" "unauthorized")
    | some token ↦ elim (verify sv now token) [
      | err e ↦ rejected (rejection_of e)
      | ok claims ↦
          if kind_is_access claims.kind
          then admitted (session_of now claims)
          else rejected (unauthorized "err_auth.not_access_token" "invalid_token")
    ]
  ]

  -- `require_scope`, as far as it hands the request on.
  pub require_scope : String → ℕ → Dict (List ℕ) → Extracted (Unit {0})
  require_scope required_scope now headers = elim (token_of headers) [
    | none ↦ rejected (unauthorized "err_auth.missing_header" "unauthorized")
    | some token ↦ elim (verify sv now token) [
      | err e ↦ rejected (rejection_of e)
      | ok claims ↦
          if str_eq claims.scope required_scope
          then admitted tt
          else rejected (forbidden "err_auth.forbidden")
    ]
  ]

pub assert_role : AuthSession → Role → String → Extracted (Unit {0})
assert_role user role message =
    if session_has_role user role then admitted tt else rejected (forbidden message)

pub assert_scope : AuthSession → String → String → Extracted (Unit {0})
assert_scope user scope message =
    if str_eq user.scope scope then admitted tt else rejected (forbidden message)

pub assert_scope_admin_page : AuthSession → String → Extracted (Unit {0})
assert_scope_admin_page user message = assert_scope user "admin_page" message
