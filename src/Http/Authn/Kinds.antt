-- ===== src/Http/Authn/Kinds.antt =====
-- What the two kinds of tokens are good for: crates/api/src/middleware/auth.rs over
-- crates/infra/src/auth/jwt.rs.
use Prim.Native.String
use Prim.Native.String.{[], ◌∷◌}
use kokkeak_api.Http.Authn.{
  from_request_parts, require_scope, token_of, session_of, admitted, rejected, unauthorized,
  strip_prefix,
}
use kokkeak_api.Http.Tokens.{
  JwtService, JsonwebtokenLaws, verify-issue, issue_access, issue_refresh, claims_of,
}
use Prim.Native.String.append.{nil, cons}
use kokkeak_api.Auth.Types.{ok, access, refresh, AuthSession}
use kokkeak_api.Prelude.{
  ℕ, ◌≡◌, some, refl, List, String, Option, arith, ◌≤◌, ◌+◌, [], ◌∷◌, eq_refl, ap, ◌∙◌,
}
use kokkeak_api.Dict.{Dict, lookup}
use kokkeak_api.User.{Role}
use kokkeak_api.Auth.Types.{AuthSession, refresh, access}

-- The prefix of a text is stripped.
strip_prefix-append : (p s : String) → strip_prefix p (String.◌++◌ p s) ≡ some s
unfolding strip_prefix
strip_prefix-append [] s = λ i. some (nil s i)
strip_prefix-append (c ∷ p) s =
    ap (strip_prefix (c ∷ p)) (λ i. cons c p s i) ∙ ground (arith, strip_prefix-append p s)

module _ (sv : JwtService) (laws : JsonwebtokenLaws sv.jwt) (to_str : List ℕ → Option String)
    (from_timestamp : ℕ → Option ℕ) where
  token_of_bearer :
      (headers : Dict (List ℕ)) (value : List ℕ) (token : String)
      → lookup "authorization" headers ≡ some value
      → to_str value ≡ some (String.◌++◌ "Bearer " token)
      → token_of sv to_str from_timestamp headers ≡ some token
  unfolding token_of
  token_of_bearer headers value token given text =
      let stripped = strip_prefix-append "Bearer " token in ground arith

  -- A user is who the access token was issued to: a request that carries it as a bearer token, before
  -- it expires, has the session of that user, with the roles, the scope and the identifier of the
  -- token.
  pub issued_access :
      (now later : ℕ) (jti : String) (user_id : ℕ) (roles : List Role) (scope token jti' : String)
      (headers : Dict (List ℕ)) (value : List ℕ)
      → issue_access sv now jti user_id roles scope ≡ ok (token, jti')
      → later ≤ now + sv.access_ttl_secs
      → lookup "authorization" headers ≡ some value
      → to_str value ≡ some (String.◌++◌ "Bearer " token)
      → (session : AuthSession) × (from_request_parts sv to_str from_timestamp later headers
          ≡ admitted session)
        × (session.user_id ≡ user_id)
        × (session.roles ≡ roles)
        × (session.scope ≡ scope)
        × (session.jti ≡ jti)
  unfolding from_request_parts issue_access session_of
  issued_access now later jti user_id roles scope token jti' headers value issued early given text =
      let found = token_of_bearer headers value token given text in
      let known =
        verify-issue sv now later jti user_id roles scope access sv.access_ttl_secs token jti' laws
          issued early in
      (
        session_of sv to_str from_timestamp later
            (claims_of sv now jti user_id roles scope access sv.access_ttl_secs),
        ground arith,
        refl,
        refl,
        refl,
        refl,
      )

  -- A refresh token is no proof of identity, but it opens a scope: with a request that carries it as a
  -- bearer token, before it expires, `AuthnUser` is refused, and `require_scope` of the scope that the
  -- token was issued for hands the request on.
  pub issued_refresh :
      (now later : ℕ) (jti : String) (user_id : ℕ) (roles : List Role) (scope token jti' : String)
      (headers : Dict (List ℕ)) (value : List ℕ)
      → issue_refresh sv now jti user_id roles scope ≡ ok (token, jti')
      → later ≤ now + sv.refresh_ttl_secs
      → lookup "authorization" headers ≡ some value
      → to_str value ≡ some (String.◌++◌ "Bearer " token)
      → (from_request_parts sv to_str from_timestamp later headers
          ≡ rejected (unauthorized "err_auth.not_access_token" "invalid_token"))
        × (require_scope sv to_str from_timestamp scope later headers ≡ admitted tt)
  unfolding from_request_parts require_scope issue_refresh
  issued_refresh now later jti user_id roles scope token jti' headers value issued early given
        text =
      let found = token_of_bearer headers value token given text in
      let known =
        verify-issue sv now later jti user_id roles scope refresh sv.refresh_ttl_secs token jti'
          laws issued early in
      (ground arith, ground (arith, eq_refl scope))
