-- ===== src/Breaker.antt =====
-- The circuit breaker: crates/infra/src/circuit_breaker.rs, with the types of
-- crates/domain/src/circuit_breaker.rs. A call is one atomic step. The seconds since the epoch that
-- a call reads are its argument `now`; the counters are `u32`, so `fetch_add` wraps.
pub mod Steps
pub mod Probes
mod Tests
use kokkeak_api.Prelude.{ℕ, ◌+◌, ◌-◌, ◌%◌, Bool, true, false, leb, ltb, if◌then◌else◌, u32_mod}

pub data CircuitState : Type 0 where
  closed opened half_open : CircuitState

pub record CircuitBreakerConfig : Type 0 where
  pub failure_threshold : ℕ
  pub open_duration_secs : ℕ
  pub half_open_max_calls : ℕ

pub record CircuitBreaker : Type 0 where
  pub config : CircuitBreakerConfig
  pub state : CircuitState
  pub failure_count : ℕ
  pub success_count : ℕ
  pub last_failure_epoch : ℕ
  pub half_open_calls : ℕ

pub record CircuitSnapshot : Type 0 where
  pub state : CircuitState
  pub failure_count : ℕ
  pub success_count : ℕ

abbrev pub default_config : CircuitBreakerConfig
default_config = record { failure_threshold = 5; open_duration_secs = 60; half_open_max_calls = 1 }

pub new : CircuitBreakerConfig → CircuitBreaker
new config = record {
  config = config;
  state = closed;
  failure_count = 0;
  success_count = 0;
  last_failure_epoch = 0;
  half_open_calls = 0;
}

-- `state`: reading the state of an open breaker whose time has passed half-opens it.
pub poll : ℕ → CircuitBreaker → CircuitState × CircuitBreaker
poll now b = elim b.state [
  | closed ↦ (closed, b)
  | opened ↦
      if leb b.config.open_duration_secs (now - b.last_failure_epoch)
      then (half_open, record b { state = half_open; half_open_calls = 0; success_count = 0 })
      else (opened, b)
  | half_open ↦ (half_open, b)
]

admit : CircuitState → CircuitBreaker → Bool × CircuitBreaker
admit closed b = (true, b)
admit opened b = (false, b)
admit half_open b = (
  ltb b.half_open_calls b.config.half_open_max_calls,
  record b { half_open_calls = (b.half_open_calls + 1) % u32_mod },
)

pub allow_request : ℕ → CircuitBreaker → Bool × CircuitBreaker
unfolding poll admit
allow_request now b = let (s, b') = poll now b in admit s b'

count_success : CircuitState → CircuitBreaker → CircuitBreaker
count_success closed b = record b { failure_count = 0 }
count_success opened b = b
count_success half_open b =
    let count = (b.success_count + 1) % u32_mod in
    if leb b.config.half_open_max_calls count
    then record b { state = closed; success_count = count; failure_count = 0; half_open_calls = 0 }
    else record b { success_count = count }

pub record_success : ℕ → CircuitBreaker → CircuitBreaker
unfolding poll count_success
record_success now b = let (s, b') = poll now b in count_success s b'

trip : ℕ → CircuitBreaker → CircuitBreaker
trip now b = record b { state = opened; last_failure_epoch = now; half_open_calls = 0 }

count_failure : CircuitState → ℕ → CircuitBreaker → CircuitBreaker
count_failure closed trip_now b =
    let count = (b.failure_count + 1) % u32_mod in
    let counted = record b { failure_count = count } in
    if leb b.config.failure_threshold count then trip trip_now counted else counted
count_failure opened trip_now b = b
count_failure half_open trip_now b = trip trip_now b

-- `record_failure` reads the clock once for the state and, if it trips, once more.
pub record_failure : ℕ → ℕ → CircuitBreaker → CircuitBreaker
unfolding poll count_failure trip
record_failure now trip_now b = let (s, b') = poll now b in count_failure s trip_now b'

pub snapshot : ℕ → CircuitBreaker → CircuitSnapshot × CircuitBreaker
unfolding poll
snapshot now b =
    let (s, b') = poll now b in
    (record { state = s; failure_count = b'.failure_count; success_count = b'.success_count }, b')
