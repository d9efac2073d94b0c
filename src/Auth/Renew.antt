-- ===== src/Auth/Renew.antt =====
-- `refresh` of crates/application/src/auth.rs.
pub mod Laws
pub mod Once
pub mod InRedis
mod Tests
use kokkeak_api.Auth.{
  Service, reason_str, issue_pair, from_status, Method, AuthOutcome, revoke_ignored, log,
  create_session, event, repo,
}
use kokkeak_api.Prelude.{none, some, true, false, if◌then◌else◌, String, Bool, Option}
use kokkeak_api.Auth.Types.{
  ok, err, ◌>>=◌, ◌>>◌, repo_ok, repo_err, TokenKind, Claims, SessionInfo, refresh, access, lift,
  pure, raise, invalid_credentials, invalid_token, public, some_or, TokenPair,
}
use kokkeak_api.User.{can_authenticate, User}

module _ {S T L J : Type 0} (sv : Service S T L J) where
  finish : Claims → SessionInfo → User → TokenPair × String → Method S T L J AuthOutcome
  finish claims existing user pair = do
    create_session sv (record {
      jti = pair.1;
      user_id = user.id;
      scope = claims.scope;
      device = existing.device;
      ip = existing.ip;
      ttl_secs = sv.jwt.refresh_ttl_secs;
    })
    log (record (event "auth.refresh.success") {
      username = some user.username;
      user_id = some user.id;
    })
    pure (record { user = public user; tokens = pair.0 })

  rotate : Claims → SessionInfo → User → Method S T L J AuthOutcome
  rotate claims existing user = do
    revoke_ignored sv claims.sub claims.jti
    pair ← issue_pair sv user.id user.roles claims.scope
    finish claims existing user pair

  refresh_user : Claims → SessionInfo → User → Method S T L J AuthOutcome
  unfolding reason_str from_status can_authenticate
  refresh_user claims existing user =
      if can_authenticate user then rotate claims existing user else do
        log (record (event "auth.refresh.failure") {
          username = some user.username;
          user_id = some user.id;
          reason = some (reason_str (from_status user.status));
        })
        raise invalid_credentials

  refresh_found : Claims → SessionInfo → Option User → Method S T L J AuthOutcome
  refresh_found claims existing o = some_or invalid_credentials o >>= refresh_user claims existing

  refresh_session : Claims → Option SessionInfo → Method S T L J AuthOutcome
  refresh_session claims none =
      log (record (event "auth.refresh.failure") { reason = some "revoked" })
      >> raise (invalid_token "session revoked")
  refresh_session claims (some existing) =
      repo sv (sv.users.find_by_id claims.sub) >>= refresh_found claims existing

  abbrev is_refresh : TokenKind → Bool
  is_refresh refresh = true
  is_refresh access = false

  check_session : Claims → Method S T L J AuthOutcome
  check_session claims st =
      (lift (sv.sessions.get claims.sub claims.jti st.sessions) >>= refresh_session claims) st

  continue : Claims → Method S T L J AuthOutcome
  continue claims =
      if is_refresh claims.kind
      then check_session claims
      else log (record (event "auth.refresh.failure") { reason = some "invalid_token" })
        >> raise (invalid_token "not a refresh token")

  -- `refresh`
  pub renew : String → Method S T L J AuthOutcome
  renew refresh_token = lift (sv.jwt.verify refresh_token) >>= continue
