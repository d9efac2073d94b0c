-- ===== src/Auth/Login/Lockout.antt =====
-- The login service over the in-memory limiter: too many failures shut out every password.
use kokkeak_api.RateLimit.{
  check, record_failure, reset, RateLimitDecision, allow, InMemoryLoginRateLimiter,
}
use kokkeak_api.Auth.Types.{LoginRateLimiter}
use kokkeak_api.Prelude.{none, some, ℕ, Option}
use kokkeak_api.Duration.{Duration}

-- The limiter of crates/infra/src/auth/rate_limit.rs behind the service's port, with the readings
-- of the clock that one login makes. Where a check panics (no attempt is allowed at all), nothing
-- is decided here.
abbrev decided : Option RateLimitDecision → RateLimitDecision
decided none = allow
decided (some d) = d

abbrev pub in_memory_limiter : ℕ → ℕ → ℕ → ℕ → LoginRateLimiter InMemoryLoginRateLimiter
in_memory_limiter now elapsed_at failed_at pushed_at = record {
  check = λ username ip l.
      (decided (check username ip now elapsed_at l).0, (check username ip now elapsed_at l).1);
  record_failure = λ username ip l. record_failure username ip failed_at pushed_at l;
  reset = λ username ip l. reset username ip l;
}
