-- ===== src/Auth/Renew/Laws.antt =====
-- What a refresh has checked, and that it uses up the session of its token.
use kokkeak_api.Auth.{
  Service, issue_pair, AuthState, AuthOutcome, sign, revoke_ignored, issue_second, bearer,
}
use kokkeak_api.Auth.Renew.{
  rotate, finish, refresh_user, renew, refresh_session, refresh_found, continue, check_session,
}
use kokkeak_api.Auth.Types.{
  ok, Claims, SessionInfo, CreateSession, public, TokenPair, bind-eq-ok, pure, bind_ok, repo_ok,
  refresh, Result, RepoResult, repo_err, err, TokenKind, access,
}
use kokkeak_api.User.{User, Role, can_authenticate, active}
use kokkeak_api.Prelude.{
  ◌≡◌, String, ℕ, List, arith, ap, ◌∙◌, none, some, inl, inr, Option, Bool-cases, refl,
}

module _ {S T L J : Type 0} (sv : Service S T L J) where
  issue_pair-sessions :
      (id : ℕ) (roles : List Role) (scope : String) (st : AuthState S T L J)
      → (issue_pair sv id roles scope st).1.sessions ≡ st.sessions
  unfolding issue_pair issue_second
  issue_pair-sessions id roles scope st = ground arith

  issue_pair-eq-ok :
      (id : ℕ) (roles : List Role) (scope : String) (st : AuthState S T L J)
      (pair : TokenPair × String)
      → (issue_pair sv id roles scope st).0 ≡ ok pair
      → (j : J) × (p : String × String) × ((sv.jwt.issue_refresh id roles scope j).0 ≡ ok p)
        × (p.1 ≡ pair.1)
        × (p.0 ≡ pair.0.refresh_token)
  unfolding issue_pair issue_second bearer
  issue_pair-eq-ok id roles scope st pair h =
      let first = sign sv (sv.jwt.issue_access id roles scope) in
      let second = sign sv (sv.jwt.issue_refresh id roles scope) in
      let (a, _, h') = bind-eq-ok first (issue_second sv id roles scope) st pair h in
      let (p, issued, h'') = bind-eq-ok second (λ q. pure (bearer sv a q)) (first st).1 pair h' in
      ((first st).1.issuer, p, issued, ground arith, ground arith)

  -- After a rotation: the old session was revoked, and one with the issued identifier was created.
  rotate-eq-ok :
      (claims : Claims) (existing : SessionInfo) (u : User) (st : AuthState S T L J)
      (out : AuthOutcome)
      → (rotate sv claims existing u st).0 ≡ ok out
      → (c : CreateSession) × (j : J) × (p : String × String) × ((sv.jwt.issue_refresh u.id u.roles
            claims.scope j).0
          ≡ ok p)
        × (p.1 ≡ c.jti)
        × ((p.0 ≡ out.tokens.refresh_token)
            × (c.user_id ≡ u.id)
            × (c.scope ≡ claims.scope)
            × (c.device ≡ existing.device)
            × (c.ip ≡ existing.ip)
            × (c.ttl_secs ≡ sv.jwt.refresh_ttl_secs))
        × (out.user ≡ public u)
        × ((rotate sv claims existing u st).1.sessions
            ≡ (sv.sessions.create c (sv.sessions.revoke claims.sub claims.jti st.sessions).1).1)
  unfolding rotate finish
  rotate-eq-ok claims existing u st out h =
      let st1 = (revoke_ignored sv claims.sub claims.jti st).1 in
      let issue = issue_pair sv u.id u.roles claims.scope in
      let (pair, issued, h') = bind-eq-ok issue (finish sv claims existing u) st1 out h in
      let (j, p, fresh, same, given) = issue_pair-eq-ok u.id u.roles claims.scope st1 pair issued in
      let c : CreateSession = record {
        jti = pair.1;
        user_id = u.id;
        scope = claims.scope;
        device = existing.device;
        ip = existing.ip;
        ttl_secs = sv.jwt.refresh_ttl_secs;
      } in
      (
        c,
        j,
        p,
        fresh,
        same,
        (ground arith, refl, refl, refl, refl, refl),
        ground arith,
        ap (λ w. w.1.sessions) (bind_ok issue (finish sv claims existing u) st1 pair issued)
            ∙ ap (λ t. (sv.sessions.create c t).1)
                (issue_pair-sessions u.id u.roles claims.scope st1),
      )

  -- What a rotation leaves: the session of the old token was revoked, and a session of the user was
  -- created whose identifier is the one of the refresh token that was issued and given out.
  abbrev pub Rotated :
      Claims → SessionInfo → User → AuthState S T L J → AuthOutcome → AuthState S T L J → Type 0
  Rotated claims existing u st out st' =
      (c : CreateSession) × (j : J) × (p : String × String) × ((sv.jwt.issue_refresh u.id u.roles
          claims.scope j).0
        ≡ ok p)
      × (p.1 ≡ c.jti)
      × ((p.0 ≡ out.tokens.refresh_token)
          × (c.user_id ≡ u.id)
          × (c.scope ≡ claims.scope)
          × (c.device ≡ existing.device)
          × (c.ip ≡ existing.ip)
          × (c.ttl_secs ≡ sv.jwt.refresh_ttl_secs))
      × (st'.sessions
          ≡ (sv.sessions.create c (sv.sessions.revoke claims.sub claims.jti st.sessions).1).1)

  refresh_user-eq-ok :
      (claims : Claims) (existing : SessionInfo) (u : User) (st : AuthState S T L J)
      (out : AuthOutcome)
      → (refresh_user sv claims existing u st).0 ≡ ok out
      → (u.status ≡ active)
        × (out.user ≡ public u)
        × Rotated claims existing u st out (refresh_user sv claims existing u st).1
  unfolding refresh_user can_authenticate
  refresh_user-eq-ok claims existing u st out h = elim (Bool-cases (can_authenticate u)) [
    | inl e ↦
        let (c, j, p, issued, same, given, shown, sessions) =
          rotate-eq-ok claims existing u st out (rw e at h) in
        (ground arith, shown, (c, j, p, issued, same, given, rw e sessions))
    | inr e ↦ ground arith
  ]

  -- What a refresh has checked: a session, an active user; and what it leaves.
  abbrev pub Refreshed :
      Claims → Option SessionInfo → AuthState S T L J → AuthOutcome → AuthState S T L J → Type 0
  Refreshed claims o st out st' =
      (existing : SessionInfo) × (u : User) × (o ≡ some existing)
      × (sv.users.find_by_id claims.sub st.users ≡ repo_ok (some u))
      × (u.status ≡ active)
      × (out.user ≡ public u)
      × Rotated claims existing u st out st'

  refresh_session_found :
      (claims : Claims) (existing : SessionInfo) (u : User) (st : AuthState S T L J)
      → sv.users.find_by_id claims.sub st.users ≡ repo_ok (some u)
      → refresh_session sv claims (some existing) st ≡ refresh_user sv claims existing u st
  unfolding refresh_session refresh_found
  refresh_session_found claims existing u st k = ground arith

  renew_stored :
      (token : String) (claims : Claims) (o : Option SessionInfo) (st : AuthState S T L J)
      → sv.jwt.verify token ≡ ok claims
      → claims.kind ≡ refresh
      → sv.sessions.get claims.sub claims.jti st.sessions ≡ ok o
      → renew sv token st ≡ refresh_session sv claims o st
  unfolding renew continue check_session
  renew_stored token claims o st v k g = ground arith

  refresh_session-eq-ok :
      (claims : Claims) (o : Option SessionInfo) (st : AuthState S T L J) (out : AuthOutcome)
      → (refresh_session sv claims o st).0 ≡ ok out
      → Refreshed claims o st out (refresh_session sv claims o st).1
  unfolding refresh_session refresh_found
  refresh_session-eq-ok claims none st out h = ground arith
  refresh_session-eq-ok claims (some existing) st out h =
      found (sv.users.find_by_id claims.sub st.users) refl
    where
      found :
          (r : RepoResult (Option User))
          → sv.users.find_by_id claims.sub st.users ≡ r
          → Refreshed claims (some existing) st out (refresh_session sv claims (some existing) st).1
      found (repo_err e) k = ground arith
      found (repo_ok none) k = ground arith
      found (repo_ok (some u)) k =
          let (is_active, shown, (c, j, p, issued, same, given, sessions)) =
            refresh_user-eq-ok claims existing u st out
              (rw (refresh_session_found claims existing u st k) at h) in
          (
            existing,
            u,
            refl,
            k,
            is_active,
            shown,
            (
              c,
              j,
              p,
              issued,
              same,
              given,
              rw (refresh_session_found claims existing u st k) sessions,
            ),
          )

  -- A refresh that returns an outcome was given a verified refresh token whose session was in the
  -- store and whose user is active, and shows that user; it has revoked that session and created one
  -- of the same user, scope, device and address, under the identifier of the refresh token that it
  -- issued for that user and scope, and returns that token.
  pub renew-eq-ok :
      (token : String) (st : AuthState S T L J) (out : AuthOutcome)
      → (renew sv token st).0 ≡ ok out
      → (claims : Claims) × (sv.jwt.verify token ≡ ok claims)
        × (claims.kind ≡ refresh)
        × (o : Option SessionInfo) × (sv.sessions.get claims.sub claims.jti st.sessions ≡ ok o)
        × Refreshed claims o st out (renew sv token st).1
  unfolding renew continue check_session
  renew-eq-ok token st out h = verified (sv.jwt.verify token) refl
    where
      Result_of : Type 0
      Result_of =
          (claims : Claims) × (sv.jwt.verify token ≡ ok claims)
          × (claims.kind ≡ refresh)
          × (o : Option SessionInfo) × (sv.sessions.get claims.sub claims.jti st.sessions ≡ ok o)
          × Refreshed claims o st out (renew sv token st).1

      stored :
          (claims : Claims)
          → sv.jwt.verify token ≡ ok claims
          → claims.kind ≡ refresh
          → (r : Result (Option SessionInfo))
          → sv.sessions.get claims.sub claims.jti st.sessions ≡ r
          → Result_of
      stored claims k kind (err e) g = ground arith
      stored claims k kind (ok o) g = (
        claims,
        k,
        kind,
        o,
        g,
        rw (renew_stored token claims o st k kind g) (
            refresh_session-eq-ok claims o st out
              (rw (renew_stored token claims o st k kind g) at h)),
      )

      kinded :
          (claims : Claims) (k : TokenKind)
          → sv.jwt.verify token ≡ ok claims
          → claims.kind ≡ k
          → Result_of
      kinded claims access v k = ground arith
      kinded claims refresh v k =
          stored claims v k (sv.sessions.get claims.sub claims.jti st.sessions) refl

      verified : (r : Result Claims) → sv.jwt.verify token ≡ r → Result_of
      verified (err e) k = ground arith
      verified (ok claims) k = kinded claims claims.kind k refl
