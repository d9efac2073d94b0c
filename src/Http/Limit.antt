-- ===== src/Http/Limit.antt =====
-- The limit on requests of one address: crates/api/src/middleware/rate_limit_redis.rs. The script is
-- run at once by the Redis server, whose three commands are parameters over its state `R`; `Q` is the
-- state of the application. Addresses and numbers are texts.
pub mod Burst
mod Tests
use Prim.Native.String
use kokkeak_api.Effect.{Outcome, good, bad}
use kokkeak_api.Prelude.Integers.{ℤ, pos, negsuc}
use kokkeak_api.Prelude.{ℕ, String, ◌==◌, some, false, if◌then◌else◌, leb, Bool, Option}

-- `acquire` is taking a connection from the pool, and `invoke` stands for what can go wrong with a call.
pub record LimitRedis (R : Type 0) : Type 0 where
  pub acquire : R → Outcome String (Unit {0})
  pub invoke : R → Outcome String (Unit {0})
  pub incr : String → R → ℤ × R
  pub expire : String → ℕ → R → R
  pub ttl : String → R → ℤ

pub record RateLimitDecision : Type 0 where
  pub allowed : Bool
  pub retry_after_secs : ℕ
  pub current : ℕ

pub record RedisRateLimit (R : Type 0) : Type 0 where
  pub redis : LimitRedis R
  pub burst : ℕ
  pub window_secs : ℕ
  pub key_prefix : String

pub record HttpResponse : Type 0 where
  pub http_status : ℕ
  pub code : String
  pub retry_after : Option String

pub limiter_of : {R : Type 0} → LimitRedis R → ℕ → ℕ → String → RedisRateLimit R
limiter_of redis burst window_secs namespace = record {
  redis = redis;
  burst = burst;
  window_secs = window_secs;
  key_prefix = String.◌++◌ namespace ":kokkeak:rl:v1:ip:";
}

abbrev pub is_one : ℤ → Bool
is_one (pos n) = n == 1
is_one (negsuc n) = false

-- `current.max(0) as u64`
abbrev pub at_least_0 : ℤ → ℕ
at_least_0 (pos n) = n
at_least_0 (negsuc n) = 0

abbrev pub ttl_or : ℕ → ℤ → ℕ
ttl_or window (pos n) = n
ttl_or window (negsuc n) = window

module _ {R : Type 0} (limiter : RedisRateLimit R) where
  -- The state after the script.
  pub script_state : String → R → R
  script_state key r =
      let (current, r') = limiter.redis.incr key r in
      if is_one current then limiter.redis.expire key limiter.window_secs r' else r'

  -- RATE_LIMIT_SCRIPT.
  pub script : String → R → (ℤ × ℤ) × R
  script key r = (
    ((limiter.redis.incr key r).0, limiter.redis.ttl key (script_state key r)),
    script_state key r,
  )

  abbrev pub decide : ℤ → ℤ → RateLimitDecision
  decide current ttl = record {
    allowed = leb (at_least_0 current) limiter.burst;
    retry_after_secs = ttl_or limiter.window_secs ttl;
    current = at_least_0 current;
  }

  abbrev invoked : String → Outcome String (Unit {0}) → R → Outcome String RateLimitDecision × R
  invoked key (bad e) r = (bad e, r)
  invoked key (good u) r =
      let ((current, ttl), r') = script key r in (good (decide current ttl), r')

  pub check : String → R → Outcome String RateLimitDecision × R
  check key r = elim (limiter.redis.acquire r) [
    | bad e ↦ (bad e, r)
    | good u ↦ invoked key (limiter.redis.invoke r) r
  ]

  -- `next` is the application; `decimal` the text of a number.
  module _ {Q : Type 0} (next : Q → HttpResponse × Q) (decimal : ℕ → String) where
    pub too_many : ℕ → HttpResponse
    too_many secs = record {
      http_status = 429;
      code = "rate_limited";
      retry_after = some (decimal secs);
    }

    abbrev answer : Outcome String RateLimitDecision → Q → HttpResponse × Q
    answer (good d) q = if d.allowed then next q else (too_many d.retry_after_secs, q)
    answer (bad e) q = next q

    pub limited : String → R → Q → (HttpResponse × Q) × R
    limited ip r q =
        let (decision, r') = check (String.◌++◌ limiter.key_prefix ip) r in (answer decision q, r')
