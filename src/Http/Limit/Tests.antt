-- ===== src/Http/Limit/Tests.antt =====
-- Tests of crates/api/src/middleware/rate_limit_redis.rs, at a server that counts in a list.
use kokkeak_api.Effect.{good, bad}
use kokkeak_api.Http.Limit.{
  LimitRedis, RedisRateLimit, HttpResponse, limited, check, script, script_state, too_many,
}
use kokkeak_api.Http.Limit.Burst.{Counts, reached, occurrences, passed_exactly}
use kokkeak_api.Prelude.Integers.{pos}
use kokkeak_api.Prelude.{
  ℕ, String, [], ◌∷◌, refl, none, some, if◌then◌else◌, List, str_eq, ◌≡◌, ◌+◌, min, ◌-◌,
}

abbrev Seen : Type 0
Seen = List String

abbrev seen : String → Seen → ℕ
seen k [] = 0
seen k (j ∷ js) = if str_eq j k then seen k js + 1 else seen k js

abbrev server : LimitRedis Seen
server = record {
  acquire = λ r. good tt;
  invoke = λ r. good tt;
  incr = λ k r. (pos (seen k r + 1), k ∷ r);
  expire = λ k secs r. r;
  ttl = λ k r. pos 42;
}

abbrev broken : LimitRedis Seen
broken = record server { invoke = λ r. bad "down" }

abbrev limiter : LimitRedis Seen → RedisRateLimit Seen
limiter redis = record { redis = redis; burst = 2; window_secs = 60; key_prefix = "p:" }

abbrev answer : HttpResponse
answer = record { http_status = 200; code = "ok"; retry_after = none }

abbrev next : ℕ → HttpResponse × ℕ
next n = (answer, n + 1)

server-Counts : Counts server seen
server-Counts = record {
  acquires = λ r. refl;
  invokes = λ r. refl;
  replies = λ k r. refl;
  adds = λ k j r. refl;
  keeps = λ k j secs r. refl;
}

passed_exactly_example :
    reached (limiter server) answer (λ n. "42") "a" ("a" ∷ "b" ∷ "a" ∷ "a" ∷ []) []
    ≡ min (occurrences "a" ("a" ∷ "b" ∷ "a" ∷ "a" ∷ [])) (2 - seen "p:a" [])
passed_exactly_example =
    passed_exactly (limiter server) seen server-Counts answer (λ n. "42") "a"
      ("a" ∷ "b" ∷ "a" ∷ "a" ∷ []) []

two_of_three : reached (limiter server) answer (λ n. "42") "a" ("a" ∷ "b" ∷ "a" ∷ "a" ∷ []) [] ≡ 2
unfolding limited check script script_state
two_of_three = refl

refused_response :
    (limited (limiter server) next (λ n. "42") "a" ("p:a" ∷ "p:a" ∷ []) 0).0
    ≡ (record { http_status = 429; code = "rate_limited"; retry_after = some "42" }, 0)
unfolding limited check script script_state too_many
refused_response = refl
