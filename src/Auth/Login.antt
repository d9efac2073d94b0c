-- ===== src/Auth/Login.antt =====
-- `login` of crates/application/src/auth.rs.
pub mod Laws
pub mod Lockout
mod Tests
use kokkeak_api.RateLimit.{allow, locked}
use kokkeak_api.Auth.{
  Service, reason_str, issue_pair, from_status, Method, AuthOutcome, LoginFailureReason,
  user_not_found, wrong_password, log, create_session, repo, event,
}
use kokkeak_api.Prelude.{none, some, if◌then◌else◌, Option, String, Bool, max}
use kokkeak_api.User.{can_authenticate, User}
use kokkeak_api.Auth.Types.{
  ok, err, ◌>>=◌, ◌>>◌, repo_ok, repo_err, pure, raise, public, rate_limited, invalid_credentials,
}
use kokkeak_api.Text.{trim}
use kokkeak_api.Duration.{as_secs}

pub record LoginInput : Type 0 where
  pub username : String
  pub password : String
  pub scope : String
  pub ip : Option String

module _ {S T L J : Type 0} (sv : Service S T L J) where
  check_limit : String → Option String → Method S T L J (Unit {0})
  check_limit username none st = pure tt st
  check_limit username (some ip) st =
      let (decision, limiter) = sv.login_rl.check username ip st.limiter in
      let st' = record st { limiter = limiter } in
      elim decision [
        | allow ↦ (ok tt, st')
        | locked retry_after ↦
            (log (record (event "auth.login.rate_limited") {
              username = some username;
              ip = some ip;
              reason = some "rate_limited";
            })
                >> raise (rate_limited (max (as_secs retry_after) 1)))
              st'
      ]

  record_login_failure : String → Option String → Method S T L J (Unit {0})
  record_login_failure username none st = pure tt st
  record_login_failure username (some ip) st =
      (ok tt, record st { limiter = sv.login_rl.record_failure username ip st.limiter })

  reset_limit : String → Option String → Method S T L J (Unit {0})
  reset_limit username none st = pure tt st
  reset_limit username (some ip) st =
      (ok tt, record st { limiter = sv.login_rl.reset username ip st.limiter })

  -- What every failed login does, whatever the reason: only the audit log tells them apart.
  reject : String → Option String → LoginFailureReason → Method S T L J AuthOutcome
  unfolding reason_str record_login_failure
  reject username ip reason = do
    log (record (event "auth.login.failure") {
      username = some username;
      ip = ip;
      reason = some (reason_str reason);
    })
    record_login_failure username ip
    raise invalid_credentials

  abbrev or_blank : Option String → String
  or_blank none = ""
  or_blank (some s) = s

  accept : String → LoginInput → User → Method S T L J AuthOutcome
  unfolding issue_pair reset_limit
  accept username input user = do
    reset_limit username input.ip
    pair ← issue_pair sv user.id user.roles input.scope
    create_session sv (record {
      jti = pair.1;
      user_id = user.id;
      scope = input.scope;
      device = "login";
      ip = or_blank input.ip;
      ttl_secs = sv.jwt.refresh_ttl_secs;
    })
    log (record (event "auth.login.success") {
      username = some username;
      user_id = some user.id;
      ip = input.ip;
    })
    pure (record { user = public user; tokens = pair.0 })

  abbrev pub hash_to_check : Option User → String
  hash_to_check none = sv.hasher.dummy_hash
  hash_to_check (some u) = u.password_hash

  judge : String → LoginInput → Option User → Bool → Method S T L J AuthOutcome
  unfolding reject accept from_status can_authenticate
  judge username input none verified = reject username input.ip user_not_found
  judge username input (some u) verified =
      if verified
      then (if can_authenticate u
          then accept username input u
          else reject username input.ip (from_status u.status))
      else reject username input.ip wrong_password

  check_password : String → LoginInput → Option User → Method S T L J AuthOutcome
  check_password username input user =
      judge username input user (sv.hasher.verify input.password (hash_to_check user))

  identify : String → LoginInput → Method S T L J AuthOutcome
  identify username input =
      repo sv (sv.users.find_by_username username) >>= check_password username input

  pub login : LoginInput → Method S T L J AuthOutcome
  login input = do
    let username = sv.to_lowercase (trim input.username)
    check_limit username input.ip
    identify username input
