-- ===== src/Health.antt =====
-- Whether the server is ready: crates/domain/src/health.rs and crates/api/src/handlers/health.rs. A check
-- is its name and its answer over the state `H` of what it looks at; the checks run at once, so each
-- looks at the same state.
pub mod Ready
mod Tests
use kokkeak_api.Effect.{Outcome, good, bad}
use kokkeak_api.Prelude.{
  ℕ, String, none, some, true, false, [], if◌then◌else◌, ◌∷◌, Option, List, Bool, ◌&&◌, map, ◌++◌,
}

pub record HealthCheck (H : Type 0) : Type 0 where
  pub name : String
  pub check : H → Outcome String (Unit {0})

pub record CheckOutcome : Type 0 where
  pub name : String
  pub is_ok : Bool
  pub error : Option String

pub up : String → CheckOutcome
up name = record { name = name; is_ok = true; error = none }

pub down : String → String → CheckOutcome
down name error = record { name = name; is_ok = false; error = some error }

pub all_ok : List CheckOutcome → Bool
all_ok [] = true
all_ok (c ∷ cs) = c.is_ok && all_ok cs

pub record ReadyReport : Type 0 where
  pub checks : List CheckOutcome

pub is_ready : ReadyReport → Bool
is_ready report = all_ok report.checks

pub record CheckView : Type 0 where
  pub name : String
  pub status : String
  pub error : Option String

pub view_of : CheckOutcome → CheckView
view_of o = record { name = o.name; status = if o.is_ok then "up" else "down"; error = o.error }

pub record ReadyResponse : Type 0 where
  pub http_status : ℕ
  pub success : Bool
  pub checks : List CheckView

module _ {H : Type 0} where
  pub outcome_of : HealthCheck H → H → CheckOutcome
  outcome_of c h = elim (c.check h) [ good u ↦ up c.name | bad e ↦ down c.name e ]

  pub run_all : List (HealthCheck H) → H → ReadyReport
  run_all registry h = record { checks = map (λ c. outcome_of c h) registry }

  pub readyz : List (HealthCheck H) → H → ReadyResponse
  readyz registry h =
      let report = run_all registry h in
      record {
        http_status = if is_ready report then 200 else 503;
        success = is_ready report;
        checks = map view_of report.checks;
      }
