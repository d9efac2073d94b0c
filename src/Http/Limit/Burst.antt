-- ===== src/Http/Limit/Burst.antt =====
-- How many requests crates/api/src/middleware/rate_limit_redis.rs lets through.
use kokkeak_api.Effect.{Outcome, good, bad, Outcome-cases}
use Prim.Native.String
use text.Mathlib.TextLemmas.{append_cancel_left}
use kokkeak_api.Http.Limit.{
  LimitRedis, RedisRateLimit, RateLimitDecision, HttpResponse, check, script, script_state, limited,
}
use kokkeak_api.Prelude.Integers.{pos}
use kokkeak_api.Prelude.{
  ℕ, String, true, inl, inr, [], if◌then◌else◌, ◌∷◌, List, ◌≡◌, Bool, min, ◌+◌, str_eq, leb, ◌⊎◌,
  arith, ◌&&◌, ◌-◌, eq_iff, map, refl, ap, ◌∙◌,
}

-- What is assumed of the server while no key runs out: it answers, `INCR` adds 1 to the key that it is
-- given and replies with the sum, and `EXPIRE` keeps what is counted.
pub record Counts {R : Type 0} (redis : LimitRedis R) (count : String → R → ℕ) : Type 0 where
  pub acquires : (r : R) → redis.acquire r ≡ good tt
  pub invokes : (r : R) → redis.invoke r ≡ good tt
  pub replies : (k : String) (r : R) → (redis.incr k r).0 ≡ pos (count k r + 1)
  pub adds :
      (k j : String) (r : R)
      → count j (redis.incr k r).1 ≡ (if str_eq k j then count j r + 1 else count j r)
  pub keeps : (k j : String) (secs : ℕ) (r : R) → count j (redis.expire k secs r) ≡ count j r

abbrev pub occurrences : String → List String → ℕ
occurrences k [] = 0
occurrences k (j ∷ js) = (if str_eq j k then 1 else 0) + occurrences k js

abbrev pub passes : Outcome String RateLimitDecision → Bool
passes (good d) = d.allowed
passes (bad e) = true

module _ {R : Type 0} (limiter : RedisRateLimit R) where
  -- How many of the requests with a key are let through.
  abbrev pub passed : String → List String → R → ℕ
  passed k [] r = 0
  passed k (j ∷ js) r =
      (if str_eq j k && passes (check limiter j r).0 then 1 else 0)
      + passed k js (check limiter j r).1

  -- How many of the requests of one address reach the application, whose state counts them.
  abbrev pub reached : HttpResponse → (ℕ → String) → String → List String → R → ℕ
  reached answer decimal ip [] r = 0
  reached answer decimal ip (j ∷ ips) r =
      let ((response, served), r') = limited limiter (λ n. (answer, n + 1)) decimal j r 0 in
      (if str_eq j ip then served else 0) + reached answer decimal ip ips r'

  module _ (count : String → R → ℕ) (counts : Counts limiter.redis count) where
    check_counted :
        (k : String) (r : R)
        → (passes (check limiter k r).0 ≡ leb (count k r + 1) limiter.burst)
          × ((check limiter k r).1 ≡ script_state limiter k r)
    unfolding check script
    check_counted k r = (
      ground (arith, counts.acquires r, counts.invokes r, counts.replies k r),
      ground (arith, counts.acquires r, counts.invokes r),
    )

    script_state-count :
        (k j : String) (r : R)
        → count j (script_state limiter k r) ≡ (if str_eq k j then count j r + 1 else count j r)
    unfolding script_state
    script_state-count k j r =
        ground (
          arith,
          counts.adds k j r,
          counts.keeps k j limiter.window_secs (limiter.redis.incr k r).1,
        )

    str_eq-append : (a s t : String) → str_eq (String.◌++◌ a s) (String.◌++◌ a t) ≡ str_eq s t
    str_eq-append a s t =
        ground
          (arith, eq_iff (String.◌++◌ a s) (String.◌++◌ a t), eq_iff s t, append_cancel_left a s t)

    with_prefix : String → String
    with_prefix ip = String.◌++◌ limiter.key_prefix ip

    occurrences-with_prefix :
        (ip : String) (ips : List String)
        → occurrences (with_prefix ip) (map with_prefix ips) ≡ occurrences ip ips
    unfolding with_prefix
    occurrences-with_prefix ip [] = refl
    occurrences-with_prefix ip (j ∷ ips) =
        ground (arith, str_eq-append limiter.key_prefix j ip, occurrences-with_prefix ip ips)

    passed_counted :
        (k : String) (js : List String) (r : R)
        → passed k js r ≡ min (occurrences k js) (limiter.burst - count k r)
    passed_counted k [] r = omega arith
    passed_counted k (j ∷ js) r =
        let (pass, state) = check_counted j r in
        ground (
          arith,
          pass,
          state,
          script_state-count j k r,
          eq_iff j k,
          passed_counted k js (check limiter j r).1,
        )

    reached-passed :
        (answer : HttpResponse) (decimal : ℕ → String) (ip : String) (ips : List String) (r : R)
        → reached answer decimal ip ips r ≡ passed (with_prefix ip) (map with_prefix ips) r
    unfolding limited with_prefix
    reached-passed answer decimal ip [] r = refl
    reached-passed answer decimal ip (j ∷ ips) r = ground (
      arith,
      str_eq-append limiter.key_prefix j ip,
      reached-passed answer decimal ip ips (check limiter (String.◌++◌ limiter.key_prefix j) r).1,
    )

    -- While the server answers every script and no count runs out, of the requests of one client
    -- address exactly those reach the application that find room below the burst, however the requests
    -- of other addresses come between them.
    pub passed_exactly :
        (answer : HttpResponse) (decimal : ℕ → String) (ip : String) (ips : List String) (r : R)
        → reached answer decimal ip ips r
          ≡ min (occurrences ip ips) (limiter.burst - count (String.◌++◌ limiter.key_prefix ip) r)
    unfolding with_prefix
    passed_exactly answer decimal ip ips r =
        reached-passed answer decimal ip ips r
        ∙ passed_counted (with_prefix ip) (map with_prefix ips) r
        ∙ ap (λ n. min n (limiter.burst - count (String.◌++◌ limiter.key_prefix ip) r))
            (occurrences-with_prefix ip ips)

  -- When the server cannot be asked, every request is let through, and nothing is counted.
  pub fails_open :
      {Q : Type 0} (next : Q → HttpResponse × Q) (decimal : ℕ → String) (ip : String) (r : R)
      (q : Q) (e : String)
      → (limiter.redis.acquire r ≡ bad e) ⊎ (limiter.redis.invoke r ≡ bad e)
      → limited limiter next decimal ip r q ≡ (next q, r)
  unfolding limited check
  fails_open next decimal ip r q e (inl h) = ground arith
  fails_open next decimal ip r q e (inr h) = elim (Outcome-cases (limiter.redis.acquire r)) [
    | inl (u, k) ↦ ground arith
    | inr (e', k) ↦ ground arith
  ]
