-- ===== src/Breaker/Probes.antt =====
-- Sequences of calls: how many requests pass, when the breaker trips, and when it gets stuck.
use kokkeak_api.Prelude.{
  ℕ, suc, ◌+◌, ◌-◌, ◌≤◌, ◌<◌, ◌≡◌, ◌≢◌, refl, true, false, List, [], ◌∷◌, length, min, arith, ltb,
  u32_mod, if◌then◌else◌,
}
use kokkeak_api.Breaker.{
  closed, opened, half_open, CircuitBreaker, poll, allow_request, record_failure,
}

-- Requests asked for one after another, at the given times.
unfoldable pub after_asking : List ℕ → CircuitBreaker → CircuitBreaker
after_asking [] b = b
after_asking (now ∷ rest) b = after_asking rest (allow_request now b).1

-- How many of them are let through.
unfoldable pub admitted : List ℕ → CircuitBreaker → ℕ
admitted [] b = 0
admitted (now ∷ rest) b =
    let more = admitted rest (allow_request now b).1 in
    if (allow_request now b).0 then suc more else more

-- Failures recorded one after another; each has the clock's two readings.
unfoldable pub after_failing : List (ℕ × ℕ) → CircuitBreaker → CircuitBreaker
after_failing [] b = b
after_failing ((now, trip_now) ∷ rest) b = after_failing rest (record_failure now trip_now b)

asked_half_open :
    (now : ℕ) (b : CircuitBreaker)
    → b.state ≡ half_open
    → b.half_open_calls + 1 < u32_mod
    → ((allow_request now b).1.state ≡ half_open)
      × ((allow_request now b).1.config ≡ b.config)
      × ((allow_request now b).1.half_open_calls ≡ b.half_open_calls + 1)
unfolding allow_request
asked_half_open now b h fits = ground arith

admitted_iff_room :
    (now : ℕ) (b : CircuitBreaker)
    → b.state ≡ half_open
    → ((allow_request now b).0 ≡ true → b.half_open_calls < b.config.half_open_max_calls)
      × ((allow_request now b).0 ≡ false → b.config.half_open_max_calls ≤ b.half_open_calls)
unfolding allow_request
admitted_iff_room now b h = ground arith

-- Until the counter of probes wraps, a half-open breaker lets exactly the probes through that its
-- configuration allows, less those already let through, and stays half open.
pub admitted-half_open :
    (times : List ℕ) (b : CircuitBreaker)
    → b.state ≡ half_open
    → b.half_open_calls + length times < u32_mod
    → (admitted times b ≡ min (length times) (b.config.half_open_max_calls - b.half_open_calls))
      × ((after_asking times b).state ≡ half_open)
unfolding admitted after_asking
admitted-half_open [] b h fits = (omega arith, h)
admitted-half_open (now ∷ rest) b h fits =
    let step = asked_half_open now b h (omega arith) in
    let ih = admitted-half_open rest (allow_request now b).1 step.0 (ground (arith, step)) in
    (ground (arith, step, ih, admitted_iff_room now b h), ih.1)

-- Once the probes of a half-open breaker are spent and none of them reports back, no later request
-- passes, however much time goes by (until the counter of probes wraps).
pub spent_probes_lock_out :
    (times : List ℕ) (b : CircuitBreaker)
    → b.state ≡ half_open
    → b.config.half_open_max_calls ≤ b.half_open_calls
    → b.half_open_calls + length times < u32_mod
    → (admitted times b ≡ 0) × ((after_asking times b).state ≡ half_open)
spent_probes_lock_out times b h spent fits =
    let all = admitted-half_open times b h fits in (omega (arith, all.0), all.1)

-- Every time in the list is less than the open duration after the last failure.
abbrev pub AllWithin : CircuitBreaker → List ℕ → Type 0
AllWithin b [] = Unit
AllWithin b (now ∷ rest) =
    (now - b.last_failure_epoch < b.config.open_duration_secs) × AllWithin b rest

rejects_once :
    (now : ℕ) (b : CircuitBreaker)
    → b.state ≡ opened
    → now - b.last_failure_epoch < b.config.open_duration_secs
    → allow_request now b ≡ (false, b)
unfolding allow_request
rejects_once now b h within = ground arith

-- Within the open duration after the last failure, an open breaker refuses every request and does
-- not change.
pub admitted-opened :
    (times : List ℕ) (b : CircuitBreaker)
    → b.state ≡ opened
    → AllWithin b times
    → (admitted times b ≡ 0) × (after_asking times b ≡ b)
unfolding admitted after_asking
admitted-opened [] b h w = (refl, refl)
admitted-opened (now ∷ rest) b h w = rw (rejects_once now b h w.0) (admitted-opened rest b h w.1)

-- Once the open duration has passed, the next request is let through exactly if the configuration
-- allows at least one probe, and the breaker is then half open with that call counted.
pub allow_request-opened :
    (now : ℕ) (b : CircuitBreaker)
    → b.state ≡ opened
    → b.config.open_duration_secs ≤ now - b.last_failure_epoch
    → ((allow_request now b).0 ≡ ltb 0 b.config.half_open_max_calls)
      × ((allow_request now b).1.state ≡ half_open)
      × ((allow_request now b).1.half_open_calls ≡ 1)
unfolding allow_request
allow_request-opened now b h passed = ground arith

fail_once :
    (now trip_now : ℕ) (b : CircuitBreaker)
    → b.state ≡ closed
    → b.config.failure_threshold < u32_mod
    → b.failure_count < b.config.failure_threshold
    → ((record_failure now trip_now b).failure_count ≡ b.failure_count + 1)
      × ((record_failure now trip_now b).state
          ≡ (if ltb (b.failure_count + 1) b.config.failure_threshold then closed else opened))
unfolding record_failure
fail_once now trip_now b h fits below = ground arith

stays_closed :
    (now trip_now : ℕ) (b : CircuitBreaker)
    → b.state ≡ closed
    → b.failure_count + 1 < b.config.failure_threshold
    → b.config.failure_threshold < u32_mod
    → ((record_failure now trip_now b).state ≡ closed)
      × ((record_failure now trip_now b).config ≡ b.config)
      × ((record_failure now trip_now b).failure_count ≡ b.failure_count + 1)
unfolding record_failure
stays_closed now trip_now b h below fits = ground arith

-- Consecutive failures of a closed breaker, no more than up to its threshold: each is counted, and
-- the breaker stays closed below the threshold and opens with the failure that reaches it.
pub after_failing_trips :
    (fails : List (ℕ × ℕ)) (b : CircuitBreaker)
    → b.state ≡ closed
    → b.config.failure_threshold < u32_mod
    → b.failure_count < b.config.failure_threshold
    → b.failure_count + length fails ≤ b.config.failure_threshold
    → ((after_failing fails b).failure_count ≡ b.failure_count + length fails)
      × ((after_failing fails b).state ≡ (
          if ltb (b.failure_count + length fails) b.config.failure_threshold
          then closed
          else opened))
unfolding after_failing
after_failing_trips [] b h fits below bound = ground arith
after_failing_trips ((now, t) ∷ []) b h fits below bound = fail_once now t b h fits below
after_failing_trips ((now, t) ∷ f ∷ rest) b h fits below bound =
    let step = stays_closed now t b h (omega arith) fits in
    ground (arith, step, after_failing_trips (f ∷ rest) (record_failure now t b) step.0)

-- A breaker configured to stay open for no time never reports that it is open.
pub poll-ne-opened :
    (now : ℕ) (b : CircuitBreaker) → b.config.open_duration_secs ≡ 0 → (poll now b).0 ≢ opened
unfolding poll
poll-ne-opened now b h = ground arith
