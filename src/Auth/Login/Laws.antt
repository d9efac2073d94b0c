-- ===== src/Auth/Login/Laws.antt =====
-- What a login that succeeds has checked, and what one that fails does.
use kokkeak_api.Auth.{Service, AuthState, AuthOutcome, repo}
use kokkeak_api.Auth.Login.{
  login, check_limit, accept, LoginInput, judge, reject, hash_to_check, identify, check_password,
}
use kokkeak_api.Auth.Types.{
  public, repo_ok, bind-eq-ok, RepoResult, err, invalid_credentials, rate_limited,
}
use kokkeak_api.Prelude.{
  none, some, true, String, Option, Bool, ◌≡◌, arith, refl, ◌∙◌, ap, false, ◌&&◌, max,
}
use kokkeak_api.Text.{trim}
use kokkeak_api.User.{User, can_authenticate, active}
use kokkeak_api.Auth.Types.{ok}
use kokkeak_api.RateLimit.{allow, locked}
use kokkeak_api.Duration.{Duration, as_secs}

module _ {S T L J : Type 0} (sv : Service S T L J) where
  -- The name under which a login looks the user up.
  abbrev pub login_name : LoginInput → String
  login_name input = sv.to_lowercase (trim input.username)

  accept-user :
      (username : String) (input : LoginInput) (u : User) (st : AuthState S T L J)
      (out : AuthOutcome)
      → (accept sv username input u st).0 ≡ ok out
      → out.user ≡ public u
  unfolding accept
  accept-user username input u st out h = ground arith

  judge-eq-ok :
      (username : String) (input : LoginInput) (o : Option User) (verified : Bool)
      (st : AuthState S T L J) (out : AuthOutcome)
      → (judge sv username input o verified st).0 ≡ ok out
      → (u : User) × (o ≡ some u) × (verified ≡ true) × (u.status ≡ active) × (out.user ≡ public u)
  unfolding judge reject can_authenticate
  judge-eq-ok username input none verified st out h = ground arith
  judge-eq-ok username input (some u) verified st out h =
      (u, refl, ground arith, ground arith, ground (arith, accept-user username input u st out))

  after_limit :
      (username : String) (ip : Option String) (st : AuthState S T L J)
      → (check_limit sv username ip st).1.users ≡ st.users
  unfolding check_limit
  after_limit username ip st = ground arith

  pub repo-eq-ok :
      {A : Type 0} (f : S → RepoResult A) (st : AuthState S T L J) (a : A)
      → (repo sv f st).0 ≡ ok a
      → (f st.users ≡ repo_ok a) × ((repo sv f st).1 ≡ st)
  repo-eq-ok f st a h = ground arith

  identify-eq-ok :
      (username : String) (input : LoginInput) (st : AuthState S T L J) (out : AuthOutcome)
      → (identify sv username input st).0 ≡ ok out
      → (u : User) × (sv.users.find_by_username username st.users ≡ repo_ok (some u))
        × (sv.hasher.verify input.password u.password_hash ≡ true)
        × (u.status ≡ active)
        × (out.user ≡ public u)
  unfolding identify check_password
  identify-eq-ok username input st out h =
      let look = repo sv (sv.users.find_by_username username) in
      let (o, looked_up, h') = bind-eq-ok look (check_password sv username input) st out h in
      let (u, is_some, verified, is_active, shown) =
        judge-eq-ok username input o (sv.hasher.verify input.password (hash_to_check sv o))
          (look st).1 out h' in
      let lookup = repo-eq-ok (sv.users.find_by_username username) st o looked_up in
      (u, lookup.0 ∙ ap repo_ok is_some, rw is_some at verified, is_active, shown)

  -- A login that returns an outcome has found an active user under the name, trimmed and in lower
  -- case, and has verified the password against that user's hash; the outcome shows that user.
  pub login-eq-ok :
      (input : LoginInput) (st : AuthState S T L J) (out : AuthOutcome)
      → (login sv input st).0 ≡ ok out
      → (u : User) × (sv.users.find_by_username (login_name input) st.users ≡ repo_ok (some u))
        × (sv.hasher.verify input.password u.password_hash ≡ true)
        × (u.status ≡ active)
        × (out.user ≡ public u)
  unfolding login
  login-eq-ok input st out h =
      let name = login_name input in
      let (_, _, h') =
        bind-eq-ok (check_limit sv name input.ip) (λ _. identify sv name input) st out h in
      rw after_limit at (identify-eq-ok name input (check_limit sv name input.ip st).1 out h')

  -- Whether the user that was looked up may log in with the password.
  abbrev pub may_enter : Option User → Bool → Bool
  may_enter none verified = false
  may_enter (some u) verified = verified && can_authenticate u

  judge_refused :
      (username ip : String) (input : LoginInput) (o : Option User) (verified : Bool)
      (st : AuthState S T L J)
      → input.ip ≡ some ip
      → may_enter o verified ≡ false
      → let (r, st') = judge sv username input o verified st in
        (r ≡ err invalid_credentials)
        × (st'.users ≡ st.users)
        × (st'.sessions ≡ st.sessions)
        × (st'.issuer ≡ st.issuer)
        × (st'.limiter ≡ sv.login_rl.record_failure username ip st.limiter)
  unfolding judge reject
  judge_refused username ip input none verified st given h = ground arith
  judge_refused username ip input (some u) verified st given h = ground arith

  check_limit-allow :
      (username ip : String) (o : Option String) (st : AuthState S T L J)
      → o ≡ some ip
      → (sv.login_rl.check username ip st.limiter).0 ≡ allow
      → check_limit sv username o st
        ≡ (ok tt, record st { limiter = (sv.login_rl.check username ip st.limiter).1 })
  unfolding check_limit
  check_limit-allow username ip o st given open_door = ground arith

  check_limit-locked :
      (username ip : String) (d : Duration) (o : Option String) (st : AuthState S T L J)
      → o ≡ some ip
      → (sv.login_rl.check username ip st.limiter).0 ≡ locked d
      → let (r, st') = check_limit sv username o st in
        (r ≡ err (rate_limited (max (as_secs d) 1)))
        × (st'.users ≡ st.users)
        × (st'.sessions ≡ st.sessions)
        × (st'.issuer ≡ st.issuer)
        × (st'.limiter ≡ (sv.login_rl.check username ip st.limiter).1)
  unfolding check_limit
  check_limit-locked username ip d o st given shut = ground arith

  -- Where the address of the client is given, the limiter lets the attempt through and the user could
  -- be looked up, an unknown name, a wrong password and an account that is not active all fail alike:
  -- the error is the same, one failure is recorded for the name and address, and no token or session
  -- is issued.
  pub login_refused :
      (input : LoginInput) (ip : String) (o : Option User) (st : AuthState S T L J)
      → input.ip ≡ some ip
      → (sv.login_rl.check (login_name input) ip st.limiter).0 ≡ allow
      → sv.users.find_by_username (login_name input) st.users ≡ repo_ok o
      → may_enter o (sv.hasher.verify input.password (hash_to_check sv o)) ≡ false
      → let (r, st') = login sv input st in
        (r ≡ err invalid_credentials)
        × (st'.users ≡ st.users)
        × (st'.sessions ≡ st.sessions)
        × (st'.issuer ≡ st.issuer)
        × (st'.limiter
            ≡ sv.login_rl.record_failure
                (login_name input)
                ip
                (sv.login_rl.check (login_name input) ip st.limiter).1)
  unfolding login identify check_password
  login_refused input ip o st given open_door looked_up h =
      let name = login_name input in
      let st' = record st { limiter = (sv.login_rl.check name ip st.limiter).1 } in
      let verified = sv.hasher.verify input.password (hash_to_check sv o) in
      ground (
        arith,
        check_limit-allow name ip input.ip st given open_door,
        judge_refused name ip input o verified st' given h,
      )

  -- While the limiter locks the name and address, a login fails with the waiting time in seconds, at
  -- least one, before any user is looked up; no token or session is issued.
  pub login_locked :
      (input : LoginInput) (ip : String) (d : Duration) (st : AuthState S T L J)
      → input.ip ≡ some ip
      → (sv.login_rl.check (login_name input) ip st.limiter).0 ≡ locked d
      → let (r, st') = login sv input st in
        (r ≡ err (rate_limited (max (as_secs d) 1)))
        × (st'.users ≡ st.users)
        × (st'.sessions ≡ st.sessions)
        × (st'.issuer ≡ st.issuer)
        × (st'.limiter ≡ (sv.login_rl.check (login_name input) ip st.limiter).1)
  unfolding login
  login_locked input ip d st given shut =
      let locks = check_limit-locked (login_name input) ip d input.ip st given shut in
      ground (arith, locks)
