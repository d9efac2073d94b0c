-- ===== src/Errors/Tests.antt =====
-- Tests of crates/common/src/error.rs and crates/api/src/error.rs.
use kokkeak_api.Auth.Types as Auth
use kokkeak_api.Effect.{good}
use kokkeak_api.Errors.{
  tr, tr_with_repo, l10n_key, l10n_args, with_message, body, Translations, of_auth, into_response,
  into_localized_response, not_found, rate_limited, status, code, with_message, body, tr_with_repo,
  l10n_key, l10n_args, unauthorized,
}
use kokkeak_api.Prelude.{ℕ, String, none, some, refl, ◌≡◌}
use kokkeak_api.Auth.Login.Laws.{login_refused}
use kokkeak_api.Errors.Responses.{retry_after_lost}
use kokkeak_api.Text.Template.{substitute, substitute_from}
use kokkeak_api.RateLimit.{check, with_params}
use kokkeak_api.Dict.{lookup, insert}
use kokkeak_api.User.{can_authenticate}
use kokkeak_api.Text.{trim}
use kokkeak_api.Auth.Login.{login}
use kokkeak_api.Auth.Sample.{service, attempt, alice, fresh}
use kokkeak_api.Errors.Login.{refused_alike}

abbrev translations : Translations
translations = record { custom = λ l k. good none; catalog = λ k l. "<{0}>" }

abbrev decimal : ℕ → String
decimal n = "7"

lost : (into_response decimal (rate_limited 7)).retry_after ≡ some "7"
unfolding into_response
lost = refl

translated :
    (into_localized_response translations decimal "en" (not_found "user 42")).error
    ≡ record { code = "not_found"; message = "<user 42>" }
unfolding into_localized_response into_response with_message body status code tr_with_repo tr
    l10n_key l10n_args substitute substitute_from
translated = refl

retry_after_lost_example :
    let e = of_auth (Auth.rate_limited 7) in
    ((into_response decimal e).retry_after ≡ some (decimal 7))
    × ((into_localized_response translations decimal "en" e).retry_after ≡ none)
retry_after_lost_example = retry_after_lost translations decimal "en" 7

guess_refused : (login service (attempt "guess") fresh).0 ≡ Auth.err Auth.invalid_credentials
unfolding check with_params lookup insert can_authenticate trim
guess_refused =
    (login_refused service (attempt "guess") "1.2.3.4" (some alice) fresh refl refl refl refl).0

refused_alike_example :
    let r = into_localized_response translations decimal "en" (of_auth Auth.invalid_credentials) in
    (r ≡ into_localized_response translations decimal "en" unauthorized)
    × (r.http_status ≡ 401)
    × (r.error.code ≡ "unauthorized")
unfolding check with_params lookup insert can_authenticate trim
refused_alike_example =
    refused_alike service translations decimal "en" (attempt "guess") "1.2.3.4" (some alice) fresh
      Auth.invalid_credentials refl refl refl refl guess_refused
