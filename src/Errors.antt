-- ===== src/Errors.antt =====
-- What a request is answered when it fails: `AppError` of crates/common/src/error.rs, and
-- crates/api/src/error.rs, which makes it of the errors of the services and translates it. `decimal` is
-- the text of a number; `custom` and `catalog` are the translations of the database and of the crate
-- `rust_i18n`.
pub mod Responses
pub mod Login
mod Tests
use Prim.Native.String
use kokkeak_api.Auth.Types as Auth
use kokkeak_api.Chat.Types as Chat
use kokkeak_api.Payment.Types as Payment
use kokkeak_api.Text.Template.{substitute}
use kokkeak_api.Prelude.{
  ℕ, String, [], ◌∷◌, none, some, ◌==◌, if◌then◌else◌, Option, List, str_eq, true, false, Bool,
}
use kokkeak_api.Effect.{Outcome, bad, good}

pub data AppError : Type 0 where
  unauthorized token_expired admin_required username_taken : AppError
  bad_request invalid_token forbidden not_found conflict validation : String → AppError
  role_not_allowed internal : String → AppError
  rate_limited : ℕ → AppError
  localized : ℕ → String → String → AppError

unfoldable pub status : AppError → ℕ
status (bad_request s) = 400
status unauthorized = 401
status (invalid_token s) = 401
status token_expired = 401
status (forbidden s) = 403
status admin_required = 403
status (not_found s) = 404
status (conflict s) = 409
status username_taken = 409
status (validation s) = 422
status (role_not_allowed s) = 422
status (rate_limited n) = 429
status (internal s) = 500
status (localized n c m) = n

unfoldable pub code : AppError → String
code (bad_request s) = "bad_request"
code unauthorized = "unauthorized"
code (invalid_token s) = "invalid_token"
code token_expired = "token_expired"
code (forbidden s) = "forbidden"
code admin_required = "admin_required"
code (not_found s) = "not_found"
code (conflict s) = "conflict"
code username_taken = "username_taken"
code (validation s) = "validation"
code (role_not_allowed s) = "role_not_allowed"
code (rate_limited n) = "rate_limited"
code (internal s) = "internal"
code (localized n c m) = c

-- The text that `thiserror` derives.
pub display : AppError → String
display (bad_request s) = String.◌++◌ "bad request: " s
display unauthorized = "unauthorized"
display (invalid_token s) = String.◌++◌ "invalid token: " s
display token_expired = "token expired"
display (forbidden s) = String.◌++◌ "forbidden: " s
display admin_required = "admin role required"
display (not_found s) = String.◌++◌ "not found: " s
display (conflict s) = String.◌++◌ "conflict: " s
display username_taken = "username already taken"
display (validation s) = String.◌++◌ "validation: " s
display (role_not_allowed s) = String.◌++◌ "role not allowed: " s
display (rate_limited n) = "rate limited"
display (internal s) = String.◌++◌ "internal: " s
display (localized n c m) = String.◌++◌ "localized error (" (String.◌++◌ c (String.◌++◌ "): " m))

pub record ApiErrorBody : Type 0 where
  pub code : String
  pub message : String

pub body : AppError → ApiErrorBody
body (localized n c m) = record { code = c; message = m }
body other = record { code = code other; message = display other }

pub with_message : AppError → String → AppError
with_message e message = localized (status e) (code e) message

-- A response: its status, its error and two of its headers.
pub record Response : Type 0 where
  pub http_status : ℕ
  pub error : ApiErrorBody
  pub www_authenticate : Option String
  pub retry_after : Option String

module _ (decimal : ℕ → String) where
  abbrev retry_header : AppError → Option String
  retry_header (rate_limited n) = some (decimal n)
  retry_header other = none

  pub into_response : AppError → Response
  into_response e = record {
    http_status = status e;
    error = body e;
    www_authenticate = if status e == 401 then some "Bearer realm=\"kokkeak\"" else none;
    retry_after = retry_header e;
  }

-- `From<AuthError> for ApiError`, and so on.
pub of_auth : Auth.AuthError → AppError
of_auth Auth.invalid_credentials = unauthorized
of_auth Auth.token_expired = token_expired
of_auth (Auth.invalid_token reason) = invalid_token reason
of_auth (Auth.forbidden reason) = forbidden reason
of_auth Auth.username_taken = username_taken
of_auth (Auth.validation msg) = validation msg
of_auth (Auth.backend msg) = internal msg
of_auth (Auth.rate_limited secs) = rate_limited secs

pub of_repo : Auth.RepoError → AppError
of_repo (Auth.not_found what) = not_found what
of_repo (Auth.conflict what) = conflict what
of_repo (Auth.repo_backend what) = internal what

pub of_chat : Chat.ChatError → AppError
of_chat (Chat.not_participant id) = forbidden "not a chat participant"
of_chat (Chat.room_not_found id) = not_found "chat room"
of_chat (Chat.invalid_body msg) = validation msg
of_chat (Chat.backend msg) = internal msg

pub of_chat_repo : Chat.ChatRepoError → AppError
of_chat_repo (Chat.row_not_found what) = not_found what
of_chat_repo (Chat.backend_error what) = internal what

-- `uuid_text` is the text of an identifier.
pub of_payment : (ℕ → String) → Payment.PaymentError → AppError
of_payment uuid_text (Payment.order_not_payable id) =
    conflict (String.◌++◌ "order " (String.◌++◌ (uuid_text id) " is not payable"))
of_payment uuid_text (Payment.not_found id) = not_found (String.◌++◌ "payment " (uuid_text id))
of_payment uuid_text (Payment.invalid_amount msg) = validation msg
of_payment uuid_text (Payment.backend msg) = internal msg

pub of_payment_repo : Payment.PaymentRepoError → AppError
of_payment_repo (Payment.row_not_found what) = not_found what
of_payment_repo (Payment.backend_error what) = internal what

pub l10n_key : AppError → String
l10n_key (bad_request s) = "err.bad_request"
l10n_key unauthorized = "err_auth.invalid_credentials"
l10n_key (invalid_token s) = "err_auth.invalid_token"
l10n_key token_expired = "err_auth.token_expired"
l10n_key (forbidden s) = "err_auth.forbidden"
l10n_key admin_required = "err_auth.admin_required"
l10n_key (not_found s) = "err_repo.not_found"
l10n_key (conflict s) = "err_repo.conflict"
l10n_key username_taken = "err_auth.username_taken"
l10n_key (validation s) = "err_auth.validation"
l10n_key (role_not_allowed s) = "err_auth.role_not_allowed"
l10n_key (rate_limited n) = "err.rate_limited"
l10n_key (internal s) = "err.internal"
l10n_key (localized n c m) = ""

pub l10n_args : AppError → List String
l10n_args (bad_request s) = s ∷ []
l10n_args (invalid_token s) = s ∷ []
l10n_args (forbidden s) = s ∷ []
l10n_args (not_found s) = s ∷ []
l10n_args (conflict s) = s ∷ []
l10n_args (validation s) = s ∷ []
l10n_args (role_not_allowed s) = s ∷ []
l10n_args (internal s) = s ∷ []
l10n_args unauthorized = []
l10n_args token_expired = []
l10n_args admin_required = []
l10n_args username_taken = []
l10n_args (rate_limited n) = []
l10n_args (localized n c m) = []

abbrev pub is_localized : AppError → Bool
is_localized (localized n c m) = true
is_localized other = false

-- `custom` gives a translation from the repository, if it has one; `catalog` one that is built in, or
-- the key.
pub record Translations : Type 0 where
  pub custom : String → String → Outcome String (Option String)
  pub catalog : String → String → String

module _ (translations : Translations) where
  pub tr : String → String → List String → String
  tr key locale args =
      if str_eq (translations.catalog key locale) key
      then String.◌++◌ "<" (String.◌++◌ key ">")
      else substitute (translations.catalog key locale) args

  pub tr_with_repo : String → String → List String → String
  tr_with_repo locale key args = elim (translations.custom locale key) [
    | bad e ↦ tr key locale args
    | good none ↦ tr key locale args
    | good (some text) ↦ substitute text args
  ]

  pub into_localized_response : (ℕ → String) → String → AppError → Response
  into_localized_response decimal locale e =
      if is_localized e
      then into_response decimal e
      else into_response decimal (with_message e (tr_with_repo locale (l10n_key e) (l10n_args e)))
