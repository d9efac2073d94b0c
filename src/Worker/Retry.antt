-- ===== src/Worker/Retry.antt =====
-- The retry policy: crates/worker/src/retry.rs. Of the clock the code uses only the nanoseconds
-- within the second, the argument `nanos`.
use kokkeak_api.Prelude.{
  ℕ, ◌+◌, ◌%◌, ◌^◌, ◌≤◌, ◌<◌, ◌≡◌, Bool, Option, none, some, min, max, ltb, ◌==◌, if◌then◌else◌,
  u64_mod, arith, Bool-cases, inl, inr,
}
use kokkeak_api.Duration.{Duration, from_secs, from_millis, as_millis, saturating_mul}

pub record RetryPolicy : Type 0 where
  pub max_retries : ℕ
  pub base_delay : Duration
  pub max_delay : Duration

abbrev pub default_policy : RetryPolicy
default_policy = record { max_retries = 5; base_delay = from_secs 1; max_delay = from_secs 30 }

-- `exp.min(max_delay)`, before the jitter.
pub capped_delay : RetryPolicy → ℕ → Duration
capped_delay p attempt = min (saturating_mul p.base_delay (2 ^ min attempt 20)) p.max_delay

-- `none` is the division by zero when `max_ms + 1` wraps.
unfoldable pub delay_for : RetryPolicy → ℕ → ℕ → Option Duration
delay_for p attempt nanos =
    if attempt == 0
    then some 0
    else let max_ms = max (as_millis (capped_delay p attempt)) 1 % u64_mod in
      let modulus = (max_ms + 1) % u64_mod in
      if modulus == 0 then none else some (from_millis (nanos % modulus))

unfoldable pub should_retry : RetryPolicy → ℕ → Bool
should_retry p attempt = ltb attempt p.max_retries

capped_delay-le : (p : RetryPolicy) (attempt : ℕ) → capped_delay p attempt ≤ p.max_delay
unfolding capped_delay
capped_delay-le p attempt = omega arith

-- The longest delay that `delay_for` can return: the capped one in whole milliseconds, and at least
-- one millisecond.
abbrev pub longest_delay : RetryPolicy → Duration
longest_delay p = from_millis (max (as_millis p.max_delay) 1)

-- For a policy whose longest delay is below 2^63 milliseconds, `delay_for` returns a delay at every
-- attempt and time, none at attempt 0, and never one longer than the policy's longest.
pub delay_for-le-longest_delay :
    (p : RetryPolicy) (attempt nanos : ℕ)
    → as_millis p.max_delay < 2 ^ 63
    → (d : Duration) × (delay_for p attempt nanos ≡ some d) × (d ≤ longest_delay p)
unfolding delay_for
delay_for-le-longest_delay p attempt nanos h = elim (Bool-cases (attempt == 0)) [
  | inl first ↦ (0, rw first, omega arith)
  | inr later ↦ (
    from_millis (nanos % (max (as_millis (capped_delay p attempt)) 1 + 1)),
    ground (arith, capped_delay-le p attempt),
    omega (arith, capped_delay-le p attempt),
  )
]
