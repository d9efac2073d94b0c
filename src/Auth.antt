-- ===== src/Auth.antt =====
-- The authentication service: crates/application/src/auth.rs. A method is an action on the state of
-- the ports and the audit log; what an error leaves written stays written. `to_lowercase` of Rust's
-- standard library (Unicode tables) is a parameter, and so are the ports; a display text of an error
-- that the code passes on is the parameter `show`.
pub mod Types
pub mod Register
pub mod Login
pub mod Renew
pub mod Sessions
pub mod Sample
use Prim.Native.String
use Prim.Native.String.{len}
use kokkeak_api.Prelude.{
  ℕ, none, [], ◌∷◌, some, if◌then◌else◌, true, false, List, Option, String, Bool, ◌++◌,
}
use kokkeak_api.Auth.Types.{
  ◌>>=◌, ◌>>◌, repo_ok, repo_err, AuthError, CreateSession, UserRepository, Claims, PublicUser,
  TokenKind, ok, err, Result, RepoResult, AuditEvent, TokenPair, SessionStore, SessionInfo,
  LoginRateLimiter, JwtIssuerPort, PasswordHasherPort, RepoError, refresh, access, Action, lift,
  backend, pure,
}
use kokkeak_api.User.{UserStatus, User, can_authenticate, Role, suspended, active, deleted, pending}
use kokkeak_api.Text.{trim}

pub record AuthOutcome : Type 0 where
  pub user : PublicUser
  pub tokens : TokenPair

pub data LoginFailureReason : Type 0 where
  user_not_found wrong_password account_suspended account_deleted account_pending :
      LoginFailureReason

pub reason_str : LoginFailureReason → String
reason_str user_not_found = "user_not_found"
reason_str wrong_password = "wrong_password"
reason_str account_suspended = "account_suspended"
reason_str account_deleted = "account_deleted"
reason_str account_pending = "account_pending"

pub from_status : UserStatus → LoginFailureReason
from_status suspended = account_suspended
from_status deleted = account_deleted
from_status pending = account_pending
from_status active = wrong_password

abbrev pub event : String → AuditEvent
event name = record { event = name; username = none; user_id = none; ip = none; reason = none }

pub record AuthState (S T L J : Type 0) : Type 0 where
  pub users : S
  pub sessions : T
  pub limiter : L
  pub issuer : J
  pub audit : List AuditEvent

pub record Service (S T L J : Type 0) : Type 0 where
  pub users : UserRepository S
  pub sessions : SessionStore T
  pub login_rl : LoginRateLimiter L
  pub jwt : JwtIssuerPort J
  pub hasher : PasswordHasherPort
  pub to_lowercase : String → String
  pub show : RepoError → String

abbrev pub Method : Type 0 → Type 0 → Type 0 → Type 0 → Type 0 → Type 0
Method S T L J A = Action (AuthState S T L J) A

-- `self.audit.log(…)`
abbrev pub log : {S T L J : Type 0} → AuditEvent → Method S T L J (Unit {0})
log e st = (ok tt, record st { audit = st.audit ++ e ∷ [] })

module _ {S T L J : Type 0} (sv : Service S T L J) where
  -- `self.users.find_by_…(…).await.map_err(|e| AuthError::Backend(e.to_string()))`
  abbrev pub repo : {A : Type 0} → (S → RepoResult A) → Method S T L J A
  repo f st = elim (f st.users) [
    | repo_ok a ↦ (ok a, st)
    | repo_err e ↦ (err (backend (sv.show e)), st)
  ]

  -- `let _ = self.sessions.create(…)`: the result is dropped.
  abbrev pub create_session : CreateSession → Method S T L J (Unit {0})
  create_session c st = (ok tt, record st { sessions = (sv.sessions.create c st.sessions).1 })

  abbrev pub revoke_ignored : ℕ → String → Method S T L J (Unit {0})
  revoke_ignored id jti st =
      (ok tt, record st { sessions = (sv.sessions.revoke id jti st.sessions).1 })

  abbrev pub sign : (J → Result (String × String) × J) → Method S T L J (String × String)
  sign f st = let (r, j) = f st.issuer in (r, record st { issuer = j })

  pub bearer : String × String → String × String → TokenPair × String
  bearer first second = (
    record {
      access_token = first.0;
      refresh_token = second.0;
      access_ttl_secs = sv.jwt.access_ttl_secs;
      refresh_ttl_secs = sv.jwt.refresh_ttl_secs;
      token_type = "Bearer";
    },
    second.1,
  )

  pub issue_second : ℕ → List Role → String → String × String → Method S T L J (TokenPair × String)
  issue_second user_id roles scope first = do
    second ← sign (sv.jwt.issue_refresh user_id roles scope)
    pure (bearer first second)

  pub issue_pair : ℕ → List Role → String → Method S T L J (TokenPair × String)
  issue_pair user_id roles scope =
      sign (sv.jwt.issue_access user_id roles scope) >>= issue_second user_id roles scope

  pub logout : ℕ → String → Method S T L J (Unit {0})
  logout user_id jti st =
      let (r, sessions) = sv.sessions.revoke user_id jti st.sessions in
      (r, record st { sessions = sessions })

  pub revoke_all : ℕ → Method S T L J ℕ
  revoke_all user_id st =
      let (r, sessions) = sv.sessions.revoke_all user_id st.sessions in
      (r, record st { sessions = sessions })

  pub list_sessions : ℕ → Method S T L J (List SessionInfo)
  list_sessions user_id st = lift (sv.sessions.list user_id st.sessions) st
