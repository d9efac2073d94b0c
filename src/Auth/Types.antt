-- ===== src/Auth/Types.antt =====
-- The data of authentication: crates/domain/src/auth.rs, the audit events of
-- crates/application/src/audit.rs without their time stamps and contexts, and the ports that the service calls.
use kokkeak_api.Prelude.{ℕ, String, Option, List, Bool, none, some, refl, ◌≡◌}
use kokkeak_api.User.{Role, User, UserStatus, any_admin, contains_role}
use kokkeak_api.RateLimit.{RateLimitDecision}
use kokkeak_api.Permission.{Permission}

pub data AuthError : Type 0 where
  invalid_credentials token_expired username_taken : AuthError
  invalid_token forbidden validation backend : String → AuthError
  rate_limited : ℕ → AuthError

pub data Result {ℓ} (A : Type ℓ) : Type ℓ where
  ok : A → Result A
  err : AuthError → Result A

pub data TokenKind : Type 0 where
  access refresh : TokenKind

pub record Claims : Type 0 where
  pub sub : ℕ
  pub iss : String
  pub iat : ℕ
  pub exp : ℕ
  pub kind : TokenKind
  pub roles : List Role
  pub scope : String
  pub jti : String

pub record AuthSession : Type 0 where
  pub user_id : ℕ
  pub roles : List Role
  pub expires_at : ℕ
  pub scope : String
  pub jti : String

pub session_has_role : AuthSession → Role → Bool
session_has_role s r = contains_role r s.roles

pub session_is_admin : AuthSession → Bool
session_is_admin s = any_admin s.roles

-- All of a user that leaves the server: not the password hash.
pub record PublicUser : Type 0 where
  pub id : ℕ
  pub username : String
  pub first_name : String
  pub last_name : String
  pub roles : List Role
  pub permissions : List Permission
  pub status : UserStatus
  pub created_at : ℕ

unfoldable pub public : User → PublicUser
public u = record {
  id = u.id;
  username = u.username;
  first_name = u.first_name;
  last_name = u.last_name;
  roles = u.roles;
  permissions = u.permissions;
  status = u.status;
  created_at = u.created_at;
}

pub record TokenPair : Type 0 where
  pub access_token : String
  pub refresh_token : String
  pub access_ttl_secs : ℕ
  pub refresh_ttl_secs : ℕ
  pub token_type : String

pub record SessionInfo : Type 0 where
  pub jti : String
  pub user_id : ℕ
  pub scope : String
  pub device : String
  pub ip : String

pub record CreateSession : Type 0 where
  pub jti : String
  pub user_id : ℕ
  pub scope : String
  pub device : String
  pub ip : String
  pub ttl_secs : ℕ

pub record AuditEvent : Type 0 where
  pub event : String
  pub username : Option String
  pub user_id : Option ℕ
  pub ip : Option String
  pub reason : Option String

pub data RepoError : Type 0 where
  not_found conflict repo_backend : String → RepoError

pub data RepoResult (A : Type 0) : Type 0 where
  repo_ok : A → RepoResult A
  repo_err : RepoError → RepoResult A

-- The ports, over the states of what stands behind them.
pub record UserRepository (S : Type 0) : Type 0 where
  pub find_by_id : ℕ → S → RepoResult (Option User)
  pub find_by_username : String → S → RepoResult (Option User)
  pub insert : User → S → RepoResult (Unit {0}) × S

pub record SessionStore (T : Type 0) : Type 0 where
  pub create : CreateSession → T → Result (Unit {0}) × T
  pub get : ℕ → String → T → Result (Option SessionInfo)
  pub revoke : ℕ → String → T → Result (Unit {0}) × T
  pub revoke_all : ℕ → T → Result ℕ × T
  pub list : ℕ → T → Result (List SessionInfo)

pub record LoginRateLimiter (L : Type 0) : Type 0 where
  pub check : String → String → L → RateLimitDecision × L
  pub record_failure : String → String → L → L
  pub reset : String → String → L → L

pub record PasswordHasherPort : Type 0 where
  pub hash : String → Result String
  pub verify : String → String → Bool
  pub dummy_hash : String

-- The issuer signs with fresh identifiers, so issuing also returns the issuer's next state.
pub record JwtIssuerPort (J : Type 0) : Type 0 where
  pub issue_access : ℕ → List Role → String → J → Result (String × String) × J
  pub issue_refresh : ℕ → List Role → String → J → Result (String × String) × J
  pub verify : String → Result Claims
  pub access_ttl_secs : ℕ
  pub refresh_ttl_secs : ℕ

-- A method that mutates the state `W` and may fail: what was written before an error stays written.
abbrev pub Action : Type 0 → Type 0 → Type 0
Action W A = W → Result A × W

infixl 5 ◌>>=◌ ◌>>◌
abbrev pub ◌>>=◌ : {W A B : Type 0} → Action W A → (A → Action W B) → Action W B
◌>>=◌ m f w = let (r, w') = m w in elim r [ ok a ↦ f a w' | err e ↦ (err e, w') ]

abbrev pub ◌>>◌ : {W A B : Type 0} → Action W A → Action W B → Action W B
m >> k = m >>= λ _. k

abbrev pub pure : {W A : Type 0} → A → Action W A
pure a w = (ok a, w)

abbrev pub raise : {W A : Type 0} → AuthError → Action W A
raise e w = (err e, w)

abbrev pub lift : {W A : Type 0} → Result A → Action W A
lift r w = (r, w)

-- `ok_or(AuthError::…)`
abbrev pub some_or : {W A : Type 0} → AuthError → Option A → Action W A
some_or e none = raise e
some_or e (some a) = pure a

-- Inversion of a step that succeeds.
pub bind-eq-ok :
    {W A B : Type 0} (m : Action W A) (f : A → Action W B) (w : W) (b : B)
    → ((m >>= f) w).0 ≡ ok b
    → (a : A) × ((m w).0 ≡ ok a) × ((f a (m w).1).0 ≡ ok b)
bind-eq-ok {W} {A} {B} m f w b h = go (m w).0 (m w).1 h
  where
    go :
        (r : Result A) (w' : W)
        → (elim r as (λ x. Result B × W) [ ok a ↦ f a w' | err e ↦ (err e, w') ]).0 ≡ ok b
        → (a : A) × (r ≡ ok a) × ((f a w').0 ≡ ok b)
    go (ok a) w' k = (a, refl, k)
    go (err e) w' k = cc

pub bind_ok :
    {W A B : Type 0} (m : Action W A) (f : A → Action W B) (w : W) (a : A)
    → (m w).0 ≡ ok a
    → (m >>= f) w ≡ f a (m w).1
bind_ok {W} {A} {B} m f w a h = go (m w).0 (m w).1 h
  where
    go :
        (r : Result A) (w' : W)
        → r ≡ ok a
        → elim r as (λ x. Result B × W) [ ok a ↦ f a w' | err e ↦ (err e, w') ] ≡ f a w'
    go r w' k = rw k
