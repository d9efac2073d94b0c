-- ===== src/Breaker/Tests.antt =====
-- The tests of crates/infra/src/circuit_breaker.rs that its code passes, and the theorems at
-- concrete breakers.
use kokkeak_api.Prelude.{◌≡◌, refl, ℕ, [], ◌∷◌, List, arith}
use kokkeak_api.Breaker.{
  closed, opened, half_open, CircuitBreakerConfig, CircuitBreaker, default_config, new,
  allow_request, record_success, record_failure, snapshot,
}
use kokkeak_api.Breaker.Steps.{start, next, failed, IsConsistent, Reach-IsConsistent}
use kokkeak_api.Breaker.Probes.{after_asking, admitted, after_failing, spent_probes_lock_out}

abbrev fast_config : CircuitBreakerConfig
fast_config = record { failure_threshold = 3; open_duration_secs = 0; half_open_max_calls = 1 }

abbrev five_failures : List (ℕ × ℕ)
five_failures = (100, 100) ∷ (101, 101) ∷ (102, 102) ∷ (103, 103) ∷ (104, 105) ∷ []

abbrev tripped_breaker : CircuitBreaker
tripped_breaker = record {
  config = default_config;
  state = opened;
  failure_count = 5;
  success_count = 0;
  last_failure_epoch = 105;
  half_open_calls = 0;
}

abbrev probing_breaker : CircuitBreaker
probing_breaker = record tripped_breaker { state = half_open; half_open_calls = 1 }

five_failures_trip : after_failing five_failures (new default_config) ≡ tripped_breaker
unfolding after_failing record_failure new
five_failures_trip = refl

one_probe_then_lock :
    after_asking (165 ∷ 166 ∷ []) tripped_breaker ≡ record probing_breaker { half_open_calls = 2 }
unfolding after_asking allow_request
one_probe_then_lock = refl

half_open_success_closes : (record_success 170 probing_breaker).state ≡ closed
unfolding record_success
half_open_success_closes = refl

half_open_failure_reopens : (record_failure 170 171 probing_breaker).state ≡ opened
unfolding record_failure
half_open_failure_reopens = refl

closed_resets_failure_count_on_success :
    (snapshot 3 (record_success 2 (record_failure 1 1 (new fast_config)))).0.failure_count ≡ 0
unfolding snapshot record_success record_failure new
closed_resets_failure_count_on_success = refl

Reach-IsConsistent_example : IsConsistent (record_failure 1 1 (new default_config))
Reach-IsConsistent_example =
    Reach-IsConsistent {config = default_config} (omega arith) (omega arith)
      (next start (failed 1 1 (new default_config)))

spent_probes_lock_out_example :
    (admitted (200 ∷ 9999 ∷ []) probing_breaker ≡ 0)
    × ((after_asking (200 ∷ 9999 ∷ []) probing_breaker).state ≡ half_open)
spent_probes_lock_out_example =
    spent_probes_lock_out (200 ∷ 9999 ∷ []) probing_breaker refl (omega arith) (omega arith)
