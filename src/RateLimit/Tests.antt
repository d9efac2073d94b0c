-- ===== src/RateLimit/Tests.antt =====
-- Tests of crates/infra/src/auth/rate_limit.rs, and the theorems at concrete attempts.
use kokkeak_api.RateLimit.{check, with_params, record_failure, locked, allow}
use kokkeak_api.Prelude.{refl, some, false, [], ◌∷◌, List, ◌≡◌, arith}
use kokkeak_api.RateLimit.History.{
  play_all, Attempt, failures_of, failed, checked, allows, check_exact,
}
use kokkeak_api.RateLimit.Window.{recent}
use kokkeak_api.Duration.{from_secs}
use kokkeak_api.Dict.{lookup, insert}

abbrev two_failures : List Attempt
two_failures =
    failed "alice" "1.2.3.4" 100 101
    ∷ failed "bob" "1.2.3.4" 101 102
    ∷ checked "alice" "1.2.3.4" 103 103
    ∷ failed "alice" "1.2.3.4" 104 105
    ∷ []

crossing_threshold_locks :
    ((check "alice" "1.2.3.4" 106 106 (play_all two_failures (with_params 60 2))).0
      ≡ some (locked (from_secs 1)))
    × ((check "alice" "5.6.7.8" 106 106 (play_all two_failures (with_params 60 2))).0 ≡ some allow)
    × ((check "alice" "1.2.3.4" 162 162 (play_all two_failures (with_params 60 2))).0 ≡ some allow)
unfolding check play_all record_failure with_params lookup insert
crossing_threshold_locks = (refl, refl, refl)

check_exact_example :
    allows (check "alice" "1.2.3.4" 106 106 (play_all two_failures (with_params 60 2))).0 ≡ false
unfolding recent failures_of
check_exact_example =
    check_exact 60 2 two_failures "alice" "1.2.3.4" 0 106 106 (omega arith) refl refl (omega arith)
