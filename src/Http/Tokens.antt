-- ===== src/Http/Tokens.antt =====
-- The tokens: `JwtService` of crates/infra/src/auth/jwt.rs. `encode` and `decode` of the crate
-- jsonwebtoken, with the service's keys and validation, are parameters, and so are the clock's reading
-- and the identifier that a call draws.
use Prim.Native.String
use kokkeak_api.Effect.{Outcome, good, bad}
use kokkeak_api.Auth.Types.{
  Result, ok, err, Claims, TokenKind, access, refresh, backend, token_expired, invalid_token,
}
use kokkeak_api.User.{Role}
use kokkeak_api.Prelude.{
  ℕ, if◌then◌else◌, str_eq, String, ◌≡◌, List, ◌+◌, ◌≤◌, arith, ap, ◌∙◌, eq_refl,
}
use kokkeak_api.Text.{is_empty}

-- The kinds of errors of jsonwebtoken that the code tells apart.
pub data DecodeError : Type 0 where
  expired_signature : DecodeError
  other_error : String → DecodeError

pub record Jsonwebtoken : Type 0 where
  pub encode : Claims → Outcome String String
  pub decode : ℕ → String → Outcome DecodeError Claims

-- A token that was encoded decodes to its claims until it expires.
pub record JsonwebtokenLaws (jwt : Jsonwebtoken) : Type 0 where
  pub decode-encode :
      (now : ℕ) (claims : Claims) (token : String)
      → jwt.encode claims ≡ good token
      → now ≤ claims.exp
      → jwt.decode now token ≡ good claims

pub record JwtService : Type 0 where
  pub jwt : Jsonwebtoken
  pub issuer : String
  pub access_ttl_secs : ℕ
  pub refresh_ttl_secs : ℕ

pub new : Jsonwebtoken → String → String → ℕ → ℕ → Result JwtService
new jwt jwt_secret issuer access_ttl_secs refresh_ttl_secs =
    if is_empty jwt_secret
    then err (backend "jwt_secret is empty — set KOKKAK_AUTH__JWT_SECRET")
    else ok (record {
      jwt = jwt;
      issuer = issuer;
      access_ttl_secs = access_ttl_secs;
      refresh_ttl_secs = refresh_ttl_secs;
    })

abbrev pub claims_of : JwtService → ℕ → String → ℕ → List Role → String → TokenKind → ℕ → Claims
claims_of sv now jti user_id roles scope kind ttl_secs = record {
  sub = user_id;
  iss = sv.issuer;
  iat = now;
  exp = now + ttl_secs;
  kind = kind;
  roles = roles;
  scope = scope;
  jti = jti;
}

abbrev encoded : String → Outcome String String → Result (String × String)
encoded jti (good token) = ok (token, jti)
encoded jti (bad e) = err (backend (String.◌++◌ "jwt encode: " e))

unfoldable pub issue :
    JwtService → ℕ → String → ℕ → List Role → String → TokenKind → ℕ → Result (String × String)
issue sv now jti user_id roles scope kind ttl_secs =
    encoded jti (sv.jwt.encode (claims_of sv now jti user_id roles scope kind ttl_secs))

unfoldable pub issue_access :
    JwtService → ℕ → String → ℕ → List Role → String → Result (String × String)
issue_access sv now jti user_id roles scope =
    issue sv now jti user_id roles scope access sv.access_ttl_secs

unfoldable pub issue_refresh :
    JwtService → ℕ → String → ℕ → List Role → String → Result (String × String)
issue_refresh sv now jti user_id roles scope =
    issue sv now jti user_id roles scope refresh sv.refresh_ttl_secs

abbrev checked : JwtService → Outcome DecodeError Claims → Result Claims
checked sv (bad expired_signature) = err token_expired
checked sv (bad (other_error e)) = err (invalid_token e)
checked sv (good claims) =
    if str_eq claims.iss sv.issuer then ok claims else err (invalid_token "issuer mismatch")

pub verify : JwtService → ℕ → String → Result Claims
verify sv now token = checked sv (sv.jwt.decode now token)

encoded-eq-ok :
    (jti token jti' : String) (o : Outcome String String)
    → encoded jti o ≡ ok (token, jti')
    → o ≡ good token
encoded-eq-ok jti token jti' (good t) h = ground arith
encoded-eq-ok jti token jti' (bad e) h = ground arith

-- A token that was issued is verified, until it expires, with the claims it was issued with.
pub verify-issue :
    (sv : JwtService) (now later : ℕ) (jti : String) (user_id : ℕ) (roles : List Role)
    (scope : String) (kind : TokenKind) (ttl_secs : ℕ) (token jti' : String)
    → JsonwebtokenLaws sv.jwt
    → issue sv now jti user_id roles scope kind ttl_secs ≡ ok (token, jti')
    → later ≤ now + ttl_secs
    → verify sv later token ≡ ok (claims_of sv now jti user_id roles scope kind ttl_secs)
unfolding issue verify
verify-issue sv now later jti user_id roles scope kind ttl_secs token jti' laws issued early =
    let claims = claims_of sv now jti user_id roles scope kind ttl_secs in
    let decoded =
      laws.decode-encode later claims token
        (encoded-eq-ok jti token jti' (sv.jwt.encode claims) issued) early in
    ap (checked sv) decoded ∙ ground (arith, eq_refl sv.issuer)
