-- ===== src/RateLimit/Bounds.antt =====
-- The waiting time that a lock announces.
use kokkeak_api.RateLimit.{
  InMemoryLoginRateLimiter, check, retry_after_secs, locked, RateLimitDecision,
}
use kokkeak_api.Prelude.{
  some, String, ℕ, ◌≡◌, ◌≤◌, max, arith, none, inl, inr, ◌<◌, ◌≢◌, Option-cases,
}
use kokkeak_api.Duration.{Duration, from_secs}

-- A lock announces at least one second and at most the window (or one second, if that is more), so
-- the whole seconds that the client is told are at least one.
pub locked_bounds :
    (username ip : String) (now elapsed_at : ℕ) (l : InMemoryLoginRateLimiter) (d : Duration)
    → (check username ip now elapsed_at l).0 ≡ some (locked d)
    → (from_secs 1 ≤ d) × (d ≤ max l.window (from_secs 1)) × (1 ≤ retry_after_secs (locked d))
unfolding check retry_after_secs
locked_bounds username ip now elapsed_at l d h = ground arith

check-ne-none :
    (username ip : String) (now elapsed_at : ℕ) (l : InMemoryLoginRateLimiter)
    → 0 < l.max_attempts
    → (check username ip now elapsed_at l).0 ≢ none
unfolding check
check-ne-none username ip now elapsed_at l h = ground arith

-- With at least one attempt allowed, a check always decides: it does not meet an empty queue.
pub check_total :
    (username ip : String) (now elapsed_at : ℕ) (l : InMemoryLoginRateLimiter)
    → 0 < l.max_attempts
    → (d : RateLimitDecision) × ((check username ip now elapsed_at l).0 ≡ some d)
check_total username ip now elapsed_at l h =
    elim (Option-cases (check username ip now elapsed_at l).0) [
      | inl panics ↦ absurd (check-ne-none username ip now elapsed_at l h panics)
      | inr found ↦ found
    ]
