-- ===== src/Http.antt =====
-- Requests and responses as the middleware of crates/api/src/middleware sees them. Header values,
-- bodies and status codes are those of the crates http and axum: what the code calls of them is the
-- parameter `Axum`.
pub mod Replay
pub mod Tokens
pub mod Limit
pub mod Signed
pub mod Authn
use kokkeak_api.Dict.{Dict}
use kokkeak_api.Prelude.{ℕ, String, Option, Bool, List}

pub record Request (B : Type 0) : Type 0 where
  pub method : String
  pub path : String
  pub headers : Dict (List ℕ)
  pub body : B

pub record Response (B : Type 0) : Type 0 where
  pub status : ℕ
  pub headers : Dict (List ℕ)
  pub body : B

-- `HeaderValue::to_str`, `HeaderValue::from_str`, `StatusCode::is_success`, `StatusCode::from_u16`,
-- `to_bytes` with its limit, `Body::from`, `Body::empty`.
pub record Axum (B : Type 0) : Type 0 where
  pub to_str : List ℕ → Option String
  pub from_str : String → Option (List ℕ)
  pub is_success : ℕ → Bool
  pub from_u16 : ℕ → Option ℕ
  pub to_bytes : ℕ → B → Option (List ℕ)
  pub from_bytes : List ℕ → B
  pub empty_body : B

-- `next.run(req)`: the rest of the application, over its state.
abbrev pub Next : Type 0 → Type 0 → Type 0
Next B S = Request B → S → Response B × S
