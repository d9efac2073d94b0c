-- ===== src/Auth/Login/Tests.antt =====
-- Tests of `login` in crates/application/src/auth.rs, and its theorems at concrete inputs.
use kokkeak_api.RateLimit.{check, record_failure, with_params}
use kokkeak_api.Text.{trim}
use kokkeak_api.Dict.{insert, lookup}
use kokkeak_api.Auth.Types.{ok, err, repo_ok, invalid_credentials, public}
use kokkeak_api.Auth.Sample.{service, fresh, attempt, find_alice, alice, out_of_alice}
use kokkeak_api.Prelude.{refl, some, true, ◌≡◌}
use kokkeak_api.User.{User, can_authenticate, active}
use kokkeak_api.Auth.Login.{login, check_limit, identify, check_password, judge, accept}
use kokkeak_api.Auth.Login.Laws.{login_name, login_refused, login-eq-ok}
use kokkeak_api.Auth.{issue_pair, issue_second, bearer}

right_password : (login service (attempt "secret") fresh).0 ≡ ok out_of_alice
unfolding login check_limit identify check_password judge accept issue_pair issue_second bearer
    check lookup insert with_params can_authenticate trim
right_password = refl

login-eq-ok_example :
    (u : User) × (find_alice (login_name service (attempt "secret")) ≡ repo_ok (some u))
    × (service.hasher.verify "secret" u.password_hash ≡ true)
    × (u.status ≡ active)
    × (public alice ≡ public u)
login-eq-ok_example = login-eq-ok service (attempt "secret") fresh out_of_alice right_password

login_refused_example :
    let (r, st) = login service (attempt "guess") fresh in
    (r ≡ err invalid_credentials)
    × (st.users ≡ tt)
    × (st.sessions ≡ fresh.sessions)
    × (st.issuer ≡ 0)
    × (st.limiter
        ≡ record_failure "alice" "1.2.3.4" 106 106
            (check "alice" "1.2.3.4" 106 106 (with_params 60 2)).1)
unfolding check with_params lookup insert can_authenticate trim
login_refused_example =
    login_refused service (attempt "guess") "1.2.3.4" (some alice) fresh refl refl refl refl
