-- ===== src/Auth/Renew/Once.antt =====
-- A refresh token works once: `refresh` of crates/application/src/auth.rs.
use kokkeak_api.Auth.{Service, AuthState, AuthOutcome}
use kokkeak_api.Auth.Renew.{renew, refresh_session, continue, check_session}
use kokkeak_api.Auth.Types.{ok, Claims, CreateSession, refresh, err, invalid_token}
use kokkeak_api.User.{Role}
use kokkeak_api.Prelude.{◌≡◌, String, ℕ, List, arith, ap, ◌∙◌, none, ◌≢◌}
use kokkeak_api.Auth.Renew.Laws.{renew-eq-ok}

module _ {S T L J : Type 0} (sv : Service S T L J) where
  used_up :
      (token : String) (claims : Claims) (st : AuthState S T L J)
      → sv.jwt.verify token ≡ ok claims
      → claims.kind ≡ refresh
      → sv.sessions.get claims.sub claims.jti st.sessions ≡ ok none
      → ((renew sv token st).0 ≡ err (invalid_token "session revoked"))
        × ((renew sv token st).1.sessions ≡ st.sessions)
        × ((renew sv token st).1.issuer ≡ st.issuer)
  unfolding renew continue check_session refresh_session
  used_up token claims st v k g = ground arith

  -- A refresh token works once. When the store forgets what it revoked and is otherwise not
  -- disturbed by the creation of a session, the revocation succeeds, and the issuer gives no refresh
  -- token the identifier of this one, then after a successful refresh a second refresh with the same
  -- token fails as revoked, and changes no session and issues no token.
  pub renew_once :
      (token : String) (claims : Claims) (st : AuthState S T L J) (out : AuthOutcome)
      → ((id : ℕ) (jti : String) (t : T)
          → (sv.sessions.revoke id jti t).0 ≡ ok tt
          → sv.sessions.get id jti (sv.sessions.revoke id jti t).1 ≡ ok none)
      → ((id : ℕ) (jti : String) (c : CreateSession) (t : T)
          → c.jti ≢ jti
          → sv.sessions.get id jti (sv.sessions.create c t).1 ≡ sv.sessions.get id jti t)
      → ((id : ℕ) (roles : List Role) (scope : String) (j : J) (p : String × String)
          → (sv.jwt.issue_refresh id roles scope j).0 ≡ ok p
          → p.1 ≢ claims.jti)
      → sv.jwt.verify token ≡ ok claims
      → (sv.sessions.revoke claims.sub claims.jti st.sessions).0 ≡ ok tt
      → (renew sv token st).0 ≡ ok out
      → let st' = (renew sv token st).1 in
        ((renew sv token st').0 ≡ err (invalid_token "session revoked"))
        × ((renew sv token st').1.sessions ≡ st'.sessions)
        × ((renew sv token st').1.issuer ≡ st'.issuer)
  renew_once token claims st out forgets disturbs_none fresh v revoked h =
      let (claims', v', kind, _, _, (_, u, _, _, _, _, (c, j, p, issued, same, _, sessions))) =
        renew-eq-ok sv token st out h in
      let this : claims' ≡ claims = ground arith in
      let other : c.jti ≢ claims.jti =
        λ e. fresh u.id u.roles claims'.scope j p issued (same ∙ e) in
      let after = (sv.sessions.revoke claims.sub claims.jti st.sessions).1 in
      used_up token claims (renew sv token st).1 v (rw this at kind) (
        ap (sv.sessions.get claims.sub claims.jti) (rw this at sessions)
        ∙ disturbs_none claims.sub claims.jti c after other
        ∙ forgets claims.sub claims.jti st.sessions revoked)
