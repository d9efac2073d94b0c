-- ===== src/Errors/Responses.antt =====
-- What a failed request is answered by crates/common/src/error.rs and crates/api/src/error.rs.
use kokkeak_api.Auth.Types as Auth
use kokkeak_api.Errors.{
  AppError, status, code, localized, rate_limited, into_response, into_localized_response,
  Translations, of_auth, with_message, body, is_localized, bad_request, invalid_token, forbidden,
  not_found, conflict, validation, role_not_allowed, internal, unauthorized, token_expired,
  admin_required, username_taken,
}
use kokkeak_api.Prelude.{ℕ, String, none, some, refl, ◌≡◌, inl, inr, Bool-cases, arith}

body-code : (e : AppError) → (body e).code ≡ code e
unfolding body code
body-code (bad_request s) = refl
body-code unauthorized = refl
body-code (invalid_token s) = refl
body-code token_expired = refl
body-code (forbidden s) = refl
body-code admin_required = refl
body-code (not_found s) = refl
body-code (conflict s) = refl
body-code username_taken = refl
body-code (validation s) = refl
body-code (role_not_allowed s) = refl
body-code (rate_limited n) = refl
body-code (internal s) = refl
body-code (localized n c m) = refl

-- Translating an error changes its message and nothing that a client decides by: the response has the
-- status and the code of the error, and asks for a token exactly if the status is 401.
pub into_localized_response_keeps :
    (translations : Translations) (decimal : ℕ → String) (locale : String) (e : AppError)
    → let r = into_localized_response translations decimal locale e in
      (r.http_status ≡ status e)
      × (r.error.code ≡ code e)
      × (r.www_authenticate ≡ (into_response decimal e).www_authenticate)
unfolding into_localized_response into_response with_message body status code
into_localized_response_keeps t d l e = elim (Bool-cases (is_localized e)) [
  | inl k ↦ (ground arith, ground (arith, body-code e), ground arith)
  | inr k ↦ (ground arith, ground arith, ground arith)
]

-- But it loses when to try again: the response to a request that came too often names the time, and the
-- translated response does not.
pub retry_after_lost :
    (translations : Translations) (decimal : ℕ → String) (locale : String) (secs : ℕ)
    → let e = of_auth (Auth.rate_limited secs) in
      ((into_response decimal e).retry_after ≡ some (decimal secs))
      × ((into_localized_response translations decimal locale e).retry_after ≡ none)
unfolding into_localized_response into_response with_message of_auth
retry_after_lost t d l secs = (refl, refl)
