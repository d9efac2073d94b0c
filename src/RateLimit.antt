-- ===== src/RateLimit.antt =====
-- The login rate limiter: crates/infra/src/auth/rate_limit.rs and the decision of
-- crates/application/src/rate_limit.rs. An `Instant` is a number of nanoseconds; a call takes the
-- readings of the clock that it makes, in order. An address is its text.
pub mod Window
pub mod History
pub mod Bounds
mod Tests
use Prim.Native.String
use kokkeak_api.Prelude.{
  ℕ, none, some, true, false, [], if◌then◌else◌, ◌∷◌, Option, List, max, Bool, String, ltb, leb,
  length, ◌-◌, ◌++◌,
}
use kokkeak_api.Dict.{Dict, lookup, erase, insert}
use kokkeak_api.Duration.{Duration, as_secs, from_secs}

pub data RateLimitDecision : Type 0 where
  allow : RateLimitDecision
  locked : Duration → RateLimitDecision

unfoldable pub is_allowed : RateLimitDecision → Bool
is_allowed allow = true
is_allowed (locked d) = false

pub retry_after_secs : RateLimitDecision → ℕ
retry_after_secs allow = 0
retry_after_secs (locked d) = max (as_secs d) 1

pub record InMemoryLoginRateLimiter : Type 0 where
  pub inner : Dict (List ℕ)
  pub window : Duration
  pub max_attempts : ℕ

abbrev pub default_window : Duration
default_window = from_secs 300

abbrev pub default_max_attempts : ℕ
default_max_attempts = 5

unfoldable pub with_params : Duration → ℕ → InMemoryLoginRateLimiter
with_params window max_attempts = record {
  inner = [];
  window = window;
  max_attempts = max_attempts;
}

unfoldable pub key : String → String → String
key username ip = String.◌++◌ username (String.◌++◌ "|" ip)

unfoldable pub evict_expired : Duration → ℕ → List ℕ → List ℕ
evict_expired window now [] = []
evict_expired window now (front ∷ rest) =
    let evicted = evict_expired window now rest in
    if ltb window (now - front) then evicted else front ∷ rest

-- The decision on the failures left; `none` is the panic on an empty queue, which is met only if
-- no attempt is allowed at all.
abbrev decide : Duration → ℕ → ℕ → List ℕ → Option RateLimitDecision
decide window max_attempts elapsed_at [] = if leb max_attempts 0 then none else some allow
decide window max_attempts elapsed_at (oldest ∷ rest) =
    if leb max_attempts (length (oldest ∷ rest))
    then some (locked (max (window - (elapsed_at - oldest)) (from_secs 1)))
    else some allow

-- `check` also writes the queue back without the failures that have expired.
check_key :
    String → ℕ → ℕ → InMemoryLoginRateLimiter → Option RateLimitDecision × InMemoryLoginRateLimiter
unfolding evict_expired
check_key k now elapsed_at l = elim (lookup k l.inner) [
  | none ↦ (some allow, l)
  | some deque ↦
      let left = evict_expired l.window now deque in
      (decide l.window l.max_attempts elapsed_at left, record l { inner = insert k left l.inner })
]

unfoldable pub check :
    String
    → String
    → ℕ
    → ℕ
    → InMemoryLoginRateLimiter
    → Option RateLimitDecision × InMemoryLoginRateLimiter
unfolding check_key key
check username ip = check_key (key username ip)

abbrev or_empty : Option (List ℕ) → List ℕ
or_empty none = []
or_empty (some l) = l

record_failure_key : String → ℕ → ℕ → InMemoryLoginRateLimiter → InMemoryLoginRateLimiter
unfolding evict_expired
record_failure_key k now pushed_at l =
    let deque = evict_expired l.window now (or_empty (lookup k l.inner)) in
    record l { inner = insert k (deque ++ pushed_at ∷ []) l.inner }

unfoldable pub record_failure :
    String → String → ℕ → ℕ → InMemoryLoginRateLimiter → InMemoryLoginRateLimiter
unfolding record_failure_key key
record_failure username ip = record_failure_key (key username ip)

reset_key : String → InMemoryLoginRateLimiter → InMemoryLoginRateLimiter
reset_key k l = record l { inner = erase k l.inner }

pub reset : String → String → InMemoryLoginRateLimiter → InMemoryLoginRateLimiter
unfolding reset_key key
reset username ip = reset_key (key username ip)
