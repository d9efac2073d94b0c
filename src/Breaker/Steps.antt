-- ===== src/Breaker/Steps.antt =====
-- The breaker as a state machine: what holds in every state that calls one after another can reach.
-- Calls that overlap are left out: the source gives up its lock between reading the state and
-- changing the counters.
use kokkeak_api.Prelude.{ℕ, ◌≤◌, ◌<◌, max, arith, u32_mod}
use kokkeak_api.Breaker.{
  CircuitState, closed, opened, half_open, CircuitBreakerConfig, CircuitBreaker, new, poll,
  allow_request, record_success, record_failure,
}

-- One call of a client, from its beginning to its end, at whatever times the clock shows.
pub data Step : CircuitBreaker → CircuitBreaker → Type 0 where
  polled : (now : ℕ) (b : CircuitBreaker) → Step b (poll now b).1
  asked : (now : ℕ) (b : CircuitBreaker) → Step b (allow_request now b).1
  succeeded : (now : ℕ) (b : CircuitBreaker) → Step b (record_success now b)
  failed : (now trip_now : ℕ) (b : CircuitBreaker) → Step b (record_failure now trip_now b)

pub data Reach (config : CircuitBreakerConfig) : CircuitBreaker → Type 0 where
  start : Reach config (new config)
  next : {b c : CircuitBreaker} → Reach config b → Step b c → Reach config c

-- The counters of a breaker in each state.
abbrev pub WithinLimits : CircuitState → CircuitBreaker → Type 0
WithinLimits closed b = b.failure_count < max 1 b.config.failure_threshold
WithinLimits opened b = b.config.failure_threshold ≤ b.failure_count
WithinLimits half_open b =
    (b.config.failure_threshold ≤ b.failure_count)
    × (b.success_count < max 1 b.config.half_open_max_calls)

pub record IsConsistent (b : CircuitBreaker) : Type 0 where
  pub counters : WithinLimits b.state b
  pub threshold_fits : b.config.failure_threshold < u32_mod
  pub max_calls_fits : b.config.half_open_max_calls < u32_mod

poll-IsConsistent : (now : ℕ) (b : CircuitBreaker) → IsConsistent b → IsConsistent (poll now b).1
unfolding poll
poll-IsConsistent now b h = ground arith

allow_request-IsConsistent :
    (now : ℕ) (b : CircuitBreaker) → IsConsistent b → IsConsistent (allow_request now b).1
unfolding allow_request
allow_request-IsConsistent now b h = ground arith

record_success-IsConsistent :
    (now : ℕ) (b : CircuitBreaker) → IsConsistent b → IsConsistent (record_success now b)
unfolding record_success
record_success-IsConsistent now b h = ground arith

record_failure-IsConsistent :
    (now trip_now : ℕ) (b : CircuitBreaker)
    → IsConsistent b
    → IsConsistent (record_failure now trip_now b)
unfolding record_failure
record_failure-IsConsistent now trip_now b h = ground arith

Step-IsConsistent : {b c : CircuitBreaker} → Step b c → IsConsistent b → IsConsistent c
Step-IsConsistent (polled now b) h = poll-IsConsistent now b h
Step-IsConsistent (asked now b) h = allow_request-IsConsistent now b h
Step-IsConsistent (succeeded now b) h = record_success-IsConsistent now b h
Step-IsConsistent (failed now trip_now b) h = record_failure-IsConsistent now trip_now b h

new-IsConsistent :
    (config : CircuitBreakerConfig)
    → config.failure_threshold < u32_mod
    → config.half_open_max_calls < u32_mod
    → IsConsistent (new config)
unfolding new
new-IsConsistent config ht hm = ground arith

-- In every state that calls reach, each of which ends before the next begins, from a new breaker whose
-- thresholds are `u32` values: a closed
-- breaker has counted fewer failures than the threshold (none if it is 0), one that is not closed
-- has counted at least as many, and a half-open one has counted too few successes to close.
pub Reach-IsConsistent :
    {config : CircuitBreakerConfig} {b : CircuitBreaker}
    → config.failure_threshold < u32_mod
    → config.half_open_max_calls < u32_mod
    → Reach config b
    → IsConsistent b
Reach-IsConsistent {config} ht hm start = new-IsConsistent config ht hm
Reach-IsConsistent ht hm (next r st) = Step-IsConsistent st (Reach-IsConsistent ht hm r)
