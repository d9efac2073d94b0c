-- ===== src/Errors/Login.antt =====
-- The response to a login that is refused, of crates/api/src/error.rs over crates/application/src/auth.rs.
use kokkeak_api.Auth.{Service, AuthState}
use kokkeak_api.Auth.Login.{login, LoginInput, hash_to_check}
use kokkeak_api.Auth.Login.Laws.{login_name, login_refused, may_enter}
use kokkeak_api.Auth.Types.{err, repo_ok, AuthError, invalid_credentials}
use kokkeak_api.Errors.{Translations, of_auth, into_localized_response, unauthorized, status, code}
use kokkeak_api.Errors.Responses.{into_localized_response_keeps}
use kokkeak_api.RateLimit.{allow}
use kokkeak_api.User.{User}
use kokkeak_api.Prelude.{String, ℕ, some, false, Option, ◌≡◌, arith, ap, ◌∙◌}

-- Where the address of the client is given, the limiter lets the attempt through and the user could be
-- looked up, every login that is refused is answered alike: whether there is no such user, or the
-- password is wrong, or the account may not enter, the response is the translated one of
-- `ApiError::Unauthorized`, with status 401 and the code "unauthorized", and does not depend on the
-- name, the address or the state.
pub refused_alike :
    {S T L J : Type 0} (sv : Service S T L J) (translations : Translations) (decimal : ℕ → String)
    (locale : String) (input : LoginInput) (ip : String) (o : Option User) (st : AuthState S T L J)
    (e : AuthError)
    → input.ip ≡ some ip
    → (sv.login_rl.check (login_name sv input) ip st.limiter).0 ≡ allow
    → sv.users.find_by_username (login_name sv input) st.users ≡ repo_ok o
    → may_enter sv o (sv.hasher.verify input.password (hash_to_check sv o)) ≡ false
    → (login sv input st).0 ≡ err e
    → let r = into_localized_response translations decimal locale (of_auth e) in
      (r ≡ into_localized_response translations decimal locale unauthorized)
      × (r.http_status ≡ 401)
      × (r.error.code ≡ "unauthorized")
unfolding of_auth status code
refused_alike sv t d l input ip o st e given allowed looked_up refused failed =
    let (outcome, _, _, _, _) = login_refused sv input ip o st given allowed looked_up refused in
    let same : e ≡ invalid_credentials = ground arith in
    let (at_status, at_code, _) = into_localized_response_keeps t d l unauthorized in
    let alike : into_localized_response t d l (of_auth e)
        ≡ into_localized_response t d l unauthorized =
      ap (λ a. into_localized_response t d l (of_auth a)) same in
    (alike, ap (λ r. r.http_status) alike ∙ at_status, ap (λ r. r.error.code) alike ∙ at_code)
