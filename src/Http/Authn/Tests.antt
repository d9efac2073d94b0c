-- ===== src/Http/Authn/Tests.antt =====
-- Tests of crates/api/src/middleware/auth.rs, with an encoding that gives one token for each kind.
use kokkeak_api.Http.Authn.{from_request_parts, admitted}
use kokkeak_api.Http.Authn.Kinds.{issued_access}
use kokkeak_api.Http.Tokens.{
  JwtService, Jsonwebtoken, JsonwebtokenLaws, issue_access, DecodeError, other_error,
  expired_signature, issue,
}
use kokkeak_api.Effect.{Outcome, good, bad}
use kokkeak_api.Auth.Types.{Claims, TokenKind, access, refresh, AuthSession}
use kokkeak_api.Dict.{lookup}
use kokkeak_api.Prelude.{
  ◌==◌, ℕ, ◌≡◌, refl, true, false, [], ◌∷◌, Bool, List, if◌then◌else◌, ◌&&◌, arith, String, ◌≤◌,
  str_eq, eq_iff, leb, some, inl, inr, Bool-cases,
}
use kokkeak_api.User.{Role}

-- Claims are encoded when they are the one set of claims of their kind.
abbrev claims : TokenKind → Claims
claims kind = record {
  sub = 7;
  iss = "kokkak";
  iat = 100;
  exp = 160;
  kind = kind;
  roles = [];
  scope = "mobile";
  jti = "j";
}

abbrev is_kind : TokenKind → TokenKind → Bool
is_kind access access = true
is_kind refresh refresh = true
is_kind access refresh = false
is_kind refresh access = false

abbrev no_roles : List Role → Bool
no_roles [] = true
no_roles (r ∷ rs) = false

same : Claims → TokenKind → Bool
same c kind =
    c.sub == 7
    && c.iat == 100
    && c.exp == 160
    && str_eq c.iss "kokkak"
    && str_eq c.scope "mobile"
    && str_eq c.jti "j"
    && is_kind c.kind kind
    && no_roles c.roles

is_kind-eq : (k kind : TokenKind) → is_kind k kind ≡ true → k ≡ kind
is_kind-eq access access h = refl
is_kind-eq refresh refresh h = refl
is_kind-eq access refresh h = ground arith
is_kind-eq refresh access h = ground arith

no_roles-eq : (rs : List Role) → no_roles rs ≡ true → rs ≡ []
no_roles-eq [] h = refl
no_roles-eq (r ∷ rs) h = ground arith

same-eq : (c : Claims) (kind : TokenKind) → same c kind ≡ true → c ≡ claims kind
unfolding same
same-eq c kind h =
    let e : (c.sub ≡ 7) × (c.iat ≡ 100) × (c.exp ≡ 160) = ground arith in
    let iss : c.iss ≡ "kokkak" = ground (arith, eq_iff c.iss "kokkak") in
    let scope : c.scope ≡ "mobile" = ground (arith, eq_iff c.scope "mobile") in
    let jti : c.jti ≡ "j" = ground (arith, eq_iff c.jti "j") in
    let k : c.kind ≡ kind = is_kind-eq c.kind kind (ground arith) in
    let roles : c.roles ≡ [] = no_roles-eq c.roles (ground arith) in
    λ i. record {
      sub = e.0 i;
      iss = iss i;
      iat = e.1 i;
      exp = e.2 i;
      kind = k i;
      roles = roles i;
      scope = scope i;
      jti = jti i;
    }

abbrev encode : Claims → Outcome String String
encode c =
    if same c access then good "A" else if same c refresh then good "R" else bad "other claims"

abbrev decode : ℕ → String → Outcome DecodeError Claims
decode now token =
    if str_eq token "A"
    then (if leb now 160 then good (claims access) else bad expired_signature)
    else if str_eq token "R"
    then (if leb now 160 then good (claims refresh) else bad expired_signature)
    else bad (other_error "unknown")

abbrev library : Jsonwebtoken
library = record { encode = encode; decode = decode }

decoded :
    (now : ℕ) (c : Claims) (token : String)
    → encode c ≡ good token
    → now ≤ c.exp
    → decode now token ≡ good c
decoded now c token h early = elim (Bool-cases (same c access)) [
  | inl a ↦
      let is_c = same-eq c access a in
      let t : token ≡ "A" = ground arith in
      let soon : now ≤ 160 = ground arith in rw (t, is_c) (ground arith)
  | inr b ↦ elim (Bool-cases (same c refresh)) [
    | inl a ↦
        let is_c = same-eq c refresh a in
        let t : token ≡ "R" = ground arith in
        let soon : now ≤ 160 = ground arith in rw (t, is_c) (ground arith)
    | inr b' ↦ ground arith
  ]
]

abbrev service : JwtService
service = record { jwt = library; issuer = "kokkak"; access_ttl_secs = 60; refresh_ttl_secs = 60 }

laws : JsonwebtokenLaws library
laws = record { decode-encode = decoded }

issued_access_example :
    (session : AuthSession) × (from_request_parts service
        (λ v. some "Bearer A")
        (λ t. some t)
        120
        (("authorization", []) ∷ [])
      ≡ admitted session)
    × (session.user_id ≡ 7)
    × (session.roles ≡ [])
    × (session.scope ≡ "mobile")
    × (session.jti ≡ "j")
unfolding issue_access issue same lookup
issued_access_example =
    issued_access service laws (λ v. some "Bearer A") (λ t. some t) 100 120 "j" 7 [] "mobile" "A"
      "j" (("authorization", []) ∷ []) [] refl (omega arith) refl refl
