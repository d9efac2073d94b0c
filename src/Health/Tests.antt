-- ===== src/Health/Tests.antt =====
-- Tests of crates/domain/src/health.rs and crates/api/src/handlers/health.rs.
use kokkeak_api.Effect.{good, bad}
use kokkeak_api.Health.{
  HealthCheck, readyz, run_all, is_ready, all_ok, outcome_of, up, down, view_of,
}
use kokkeak_api.Prelude.{[], ◌∷◌, none, some, refl, false, ◌≡◌, List}

abbrev checks : List (HealthCheck (Unit {0}))
checks =
    record { name = "redis"; check = λ h. good tt }
    ∷ record { name = "nats"; check = λ h. bad "down" }
    ∷ []

not_ready : readyz checks tt ≡ record {
  http_status = 503;
  success = false;
  checks =
      record { name = "redis"; status = "up"; error = none }
      ∷ record { name = "nats"; status = "down"; error = some "down" }
      ∷ [];
}
unfolding readyz run_all is_ready all_ok outcome_of up down view_of
not_ready = refl

-- A server without checks is ready.
ready_without_checks : (readyz {H = Unit {0}} [] tt).http_status ≡ 200
unfolding readyz run_all is_ready all_ok
ready_without_checks = refl
