-- ===== src/RateLimit/History.antt =====
-- The limiter against the history of attempts: it decides by the failures since the last success
-- that lie within the window, although it throws old ones away as it goes.
use Prim.Native.Char.{Char, code}
use Prim.Native.String
use Prim.Native.String.append.{nil, cons}
use text.Mathlib.TextLemmas.{append_cancel_left}
use mathlib.Core.Path.{ap₂}
use kokkeak_api.RateLimit.{
  InMemoryLoginRateLimiter, check, record_failure, reset, or_empty, key, evict_expired, is_allowed,
  with_params, RateLimitDecision,
}
use kokkeak_api.Prelude.{
  [], if◌then◌else◌, ◌∷◌, String, ℕ, List, ◌≡◌, str_eq, ◌≤◌, arith, ◌++◌, eq_iff, refl, inl, inr,
  Option-cases, ◌∙◌, Bool-cases, none, some, false, ◌<◌, Option, ltb, Bool, ap, not, ◌&&◌, ◌==◌,
  true, sym,
}
use kokkeak_api.Text.{is_empty}
use kokkeak_api.Duration.{Duration}
use kokkeak_api.Dict.{lookup, lookup-erase, lookup-insert}
use kokkeak_api.RateLimit.Window.{
  IsOrdered-weaken, IsOrdered, recent, evict-nil, IsOrdered-evict, recent-evict, IsOrdered-push,
  recent-append, length-evict,
}

-- What a login handler does to the limiter, with the clock's readings.
pub data Attempt : Type 0 where
  checked : String → String → ℕ → ℕ → Attempt
  failed : String → String → ℕ → ℕ → Attempt
  succeeded : String → String → Attempt

pub play : Attempt → InMemoryLoginRateLimiter → InMemoryLoginRateLimiter
play (checked username ip now elapsed_at) l = (check username ip now elapsed_at l).1
play (failed username ip now pushed_at) l = record_failure username ip now pushed_at l
play (succeeded username ip) l = reset username ip l

unfoldable pub play_all : List Attempt → InMemoryLoginRateLimiter → InMemoryLoginRateLimiter
unfolding play
play_all [] l = l
play_all (a ∷ rest) l = play_all rest (play a l)

-- The times of the failures of one key since its last success, by the history alone.
pub remember : String → Attempt → List ℕ → List ℕ
remember k (checked username ip now elapsed_at) log = log
remember k (failed username ip now pushed_at) log =
    if str_eq (key username ip) k then log ++ pushed_at ∷ [] else log
remember k (succeeded username ip) log = if str_eq (key username ip) k then [] else log

unfoldable pub failures : String → List Attempt → List ℕ → List ℕ
unfolding remember
failures k [] log = log
failures k (a ∷ rest) log = failures k rest (remember k a log)

-- The clock's readings do not fall, from `low` to `high`.
abbrev pub IsTimed : ℕ → List Attempt → ℕ → Type 0
IsTimed low [] high = low ≤ high
IsTimed low (checked username ip now elapsed_at ∷ rest) high =
    (low ≤ now) × (now ≤ elapsed_at) × IsTimed elapsed_at rest high
IsTimed low (failed username ip now pushed_at ∷ rest) high =
    (low ≤ now) × (now ≤ pushed_at) × IsTimed pushed_at rest high
IsTimed low (succeeded username ip ∷ rest) high = IsTimed low rest high

abbrev queue : String → InMemoryLoginRateLimiter → List ℕ
queue k l = or_empty (lookup k l.inner)

module _ (window : Duration) (max_attempts : ℕ) (k : String) where
  -- The queue of the key counts like the whole history, from the time `now` on.
  record IsTracked (now : ℕ) (log : List ℕ) (l : InMemoryLoginRateLimiter) : Type 0 where
    same_window : l.window ≡ window
    same_max : l.max_attempts ≡ max_attempts
    ordered : IsOrdered 0 (queue k l) now
    counts : (later : ℕ) → now ≤ later → recent window later (queue k l) ≡ recent window later log

  IsTracked-later :
      {now later : ℕ} {log : List ℕ} {l : InMemoryLoginRateLimiter}
      → now ≤ later
      → IsTracked now log l
      → IsTracked later log l
  IsTracked-later {now} {later} {log} {l} h t = record {
    same_window = t.same_window;
    same_max = t.same_max;
    ordered = IsOrdered-weaken 0 0 now later (queue k l) t.ordered (omega arith) h;
    counts = λ x p. t.counts x (omega arith);
  }

  queue-check :
      (username ip : String) (now elapsed_at : ℕ) (l : InMemoryLoginRateLimiter)
      → queue k (check username ip now elapsed_at l).1
        ≡ (if str_eq (key username ip) k then evict_expired l.window now (queue k l) else queue k l)
  unfolding check
  queue-check username ip now elapsed_at l =
      elim (Option-cases (lookup (key username ip) l.inner)) [
        | inl new ↦ ground (arith, eq_iff (key username ip) k, evict-nil l.window now)
        | inr (deque, old) ↦ ground (
          arith,
          eq_iff (key username ip) k,
          lookup-insert (key username ip) k (evict_expired l.window now deque) l.inner,
        )
      ]

  queue-record_failure :
      (username ip : String) (now pushed_at : ℕ) (l : InMemoryLoginRateLimiter)
      → queue k (record_failure username ip now pushed_at l) ≡ (
          if str_eq (key username ip) k
          then evict_expired l.window now (queue k l) ++ pushed_at ∷ []
          else queue k l)
  unfolding record_failure
  queue-record_failure username ip now pushed_at l = ground (
    arith,
    eq_iff (key username ip) k,
    lookup-insert (key username ip) k
        (evict_expired l.window now (queue (key username ip) l) ++ pushed_at ∷ []) l.inner,
  )

  queue-reset :
      (username ip : String) (l : InMemoryLoginRateLimiter)
      → queue k (reset username ip l) ≡ (if str_eq (key username ip) k then [] else queue k l)
  unfolding reset
  queue-reset username ip l = ground (arith, lookup-erase (key username ip) k l.inner)

  kept_by_check :
      (username ip : String) (now elapsed_at : ℕ) (l : InMemoryLoginRateLimiter)
      → ((check username ip now elapsed_at l).1.window ≡ l.window)
        × ((check username ip now elapsed_at l).1.max_attempts ≡ l.max_attempts)
  unfolding check
  kept_by_check username ip now elapsed_at l = ground arith

  kept_by_writes :
      (username ip : String) (now pushed_at : ℕ) (l : InMemoryLoginRateLimiter)
      → ((record_failure username ip now pushed_at l).window ≡ l.window)
        × ((record_failure username ip now pushed_at l).max_attempts ≡ l.max_attempts)
        × ((reset username ip l).window ≡ l.window)
        × ((reset username ip l).max_attempts ≡ l.max_attempts)
  unfolding record_failure reset
  kept_by_writes username ip now pushed_at l = (refl, refl, refl, refl)

  check-IsTracked :
      (username ip : String) (now elapsed_at : ℕ) (log : List ℕ) (l : InMemoryLoginRateLimiter)
      → now ≤ elapsed_at
      → IsTracked now log l
      → IsTracked elapsed_at log (check username ip now elapsed_at l).1
  check-IsTracked username ip now elapsed_at log l h t = IsTracked-later h (record {
    same_window = (kept_by_check username ip now elapsed_at l).0 ∙ t.same_window;
    same_max = (kept_by_check username ip now elapsed_at l).1 ∙ t.same_max;
    ordered = elim (Bool-cases (str_eq (key username ip) k)) [
      | inl this ↦ rw (queue-check, this) (IsOrdered-evict l.window now 0 now (queue k l) t.ordered)
      | inr other ↦ rw (queue-check, other) t.ordered
    ];
    counts = λ later p. elim (Bool-cases (str_eq (key username ip) k)) [
      | inl this ↦ rw (queue-check, this, t.same_window, recent-evict) (t.counts later p)
      | inr other ↦ rw (queue-check, other) (t.counts later p)
    ];
  })

  record_failure-IsTracked :
      (username ip : String) (now pushed_at : ℕ) (log : List ℕ) (l : InMemoryLoginRateLimiter)
      → now ≤ pushed_at
      → IsTracked now log l
      → IsTracked pushed_at
          (remember k (failed username ip now pushed_at) log)
          (record_failure username ip now pushed_at l)
  unfolding remember
  record_failure-IsTracked username ip now pushed_at log l h t =
      let kept = kept_by_writes username ip now pushed_at l in
      record {
        same_window = kept.0 ∙ t.same_window;
        same_max = kept.1 ∙ t.same_max;
        ordered = elim (Bool-cases (str_eq (key username ip) k)) [
          | inl this ↦
              rw (queue-record_failure, this)
                (IsOrdered-push 0 now pushed_at (evict_expired l.window now (queue k l))
                  (IsOrdered-evict l.window now 0 now (queue k l) t.ordered) h)
          | inr other ↦
              rw (queue-record_failure, other)
                (IsOrdered-weaken 0 0 now pushed_at (queue k l) t.ordered (omega arith) h)
        ];
        counts = λ later p. elim (Bool-cases (str_eq (key username ip) k)) [
          | inl this ↦
              rw (queue-record_failure, this, recent-append, recent-append, t.same_window)
                (omega
                  (arith, recent-evict window now later (queue k l), t.counts later (omega arith)))
          | inr other ↦ rw (queue-record_failure, other) (t.counts later (omega arith))
        ];
      }

  reset-IsTracked :
      (username ip : String) (now : ℕ) (log : List ℕ) (l : InMemoryLoginRateLimiter)
      → IsTracked now log l
      → IsTracked now (remember k (succeeded username ip) log) (reset username ip l)
  unfolding remember
  reset-IsTracked username ip now log l t =
      let kept = kept_by_writes username ip 0 0 l in
      record {
        same_window = kept.2 ∙ t.same_window;
        same_max = kept.3 ∙ t.same_max;
        ordered = elim (Bool-cases (str_eq (key username ip) k)) [
          | inl this ↦ rw (queue-reset, this) (omega arith)
          | inr other ↦ rw (queue-reset, other) t.ordered
        ];
        counts = λ later p. elim (Bool-cases (str_eq (key username ip) k)) [
          | inl this ↦ rw (queue-reset, this)
          | inr other ↦ rw (queue-reset, other) (t.counts later p)
        ];
      }

  play_all-IsTracked :
      (attempts : List Attempt) (low high : ℕ) (log : List ℕ) (l : InMemoryLoginRateLimiter)
      → IsTimed low attempts high
      → IsTracked low log l
      → IsTracked high (failures k attempts log) (play_all attempts l)
  unfolding play_all failures
  play_all-IsTracked [] low high log l timed t = IsTracked-later timed t
  play_all-IsTracked (checked username ip now elapsed_at ∷ rest) low high log l timed t =
      play_all-IsTracked rest elapsed_at high log (check username ip now elapsed_at l).1 timed.2
        (check-IsTracked username ip now elapsed_at log l timed.1 (IsTracked-later timed.0 t))
  play_all-IsTracked (failed username ip now pushed_at ∷ rest) low high log l timed t =
      play_all-IsTracked rest pushed_at high (remember k (failed username ip now pushed_at) log)
        (record_failure username ip now pushed_at l) timed.2
        (record_failure-IsTracked username ip now pushed_at log l timed.1
          (IsTracked-later timed.0 t))
  play_all-IsTracked (succeeded username ip ∷ rest) low high log l timed t =
      play_all-IsTracked rest low high (remember k (succeeded username ip) log)
        (reset username ip l) timed (reset-IsTracked username ip low log l t)

-- The decision, read as allowed or not.
unfoldable pub allows : Option RateLimitDecision → Bool
unfolding is_allowed
allows none = false
allows (some d) = is_allowed d

allows-check :
    (username ip : String) (now elapsed_at : ℕ) (l : InMemoryLoginRateLimiter)
    → 0 < l.max_attempts
    → IsOrdered 0 (queue (key username ip) l) now
    → allows (check username ip now elapsed_at l).0
      ≡ ltb (recent l.window now (queue (key username ip) l)) l.max_attempts
unfolding check allows recent
allows-check username ip now elapsed_at l h ordered =
    elim (Option-cases (lookup (key username ip) l.inner)) [
      | inl new ↦ ground arith
      | inr (deque, old) ↦
          rw (← length-evict l.window now 0 now (queue (key username ip) l) ordered) (ground arith)
    ]

with_params-IsTracked :
    (window : Duration) (max_attempts : ℕ) (k : String) (low : ℕ)
    → IsTracked window max_attempts k low [] (with_params window max_attempts)
unfolding with_params lookup
with_params-IsTracked window max_attempts k low = record {
  same_window = refl;
  same_max = refl;
  ordered = omega arith;
  counts = λ later p. refl;
}

-- By the limiter's key: a check lets through exactly if fewer failures than the maximum were recorded
-- under the key since its last success within the window.
pub check_by_key :
    (window : Duration) (max_attempts : ℕ) (attempts : List Attempt) (username ip : String)
    (low now elapsed_at : ℕ)
    → 0 < max_attempts
    → IsTimed low attempts now
    → allows
        (check username ip now elapsed_at (play_all attempts (with_params window max_attempts))).0
      ≡ ltb (recent window now (failures (key username ip) attempts [])) max_attempts
check_by_key window max_attempts attempts username ip low now elapsed_at h timed =
    let k = key username ip in
    let l = play_all attempts (with_params window max_attempts) in
    let t =
      play_all-IsTracked window max_attempts k attempts low now [] (with_params window max_attempts)
        timed (with_params-IsTracked window max_attempts k low) in
    allows-check username ip now elapsed_at l (rw t.same_max h) t.ordered
    ∙ ap₂ ltb (ap (λ w. recent w now (queue k l)) t.same_window ∙ t.counts now (omega arith))
        t.same_max

pub max_attempts-play_all :
    (attempts : List Attempt) (l : InMemoryLoginRateLimiter)
    → (play_all attempts l).max_attempts ≡ l.max_attempts
unfolding play_all
max_attempts-play_all [] l = refl
max_attempts-play_all (checked username ip now elapsed_at ∷ rest) l =
    max_attempts-play_all rest (check username ip now elapsed_at l).1
    ∙ (kept_by_check 0 0 "" username ip now elapsed_at l).1
max_attempts-play_all (failed username ip now pushed_at ∷ rest) l =
    max_attempts-play_all rest (record_failure username ip now pushed_at l)
    ∙ (kept_by_writes 0 0 "" username ip now pushed_at l).1
max_attempts-play_all (succeeded username ip ∷ rest) l =
    max_attempts-play_all rest (reset username ip l) ∙ (kept_by_writes 0 0 "" username ip 0 0 l).3

-- The text of an address has no `|`.
abbrev pub no_bar : String → Bool
no_bar String.[] = true
no_bar (String.◌∷◌ c s) = not (code c == b'|') && no_bar s

abbrev pub no_bars : List Attempt → Bool
no_bars [] = true
no_bars (checked username ip now elapsed_at ∷ rest) = no_bar ip && no_bars rest
no_bars (failed username ip now pushed_at ∷ rest) = no_bar ip && no_bars rest
no_bars (succeeded username ip ∷ rest) = no_bar ip && no_bars rest

-- The times of the failures of a user name and address since their last success, by the history alone.
unfoldable pub failures_of : String → String → List Attempt → List ℕ → List ℕ
failures_of username ip [] log = log
failures_of username ip (checked u i now elapsed_at ∷ rest) log = failures_of username ip rest log
failures_of username ip (failed u i now pushed_at ∷ rest) log =
    failures_of username ip rest
      (if str_eq u username && str_eq i ip then log ++ pushed_at ∷ [] else log)
failures_of username ip (succeeded u i ∷ rest) log =
    failures_of username ip rest (if str_eq u username && str_eq i ip then [] else log)

abbrev first_code : String → ℕ
first_code String.[] = 0
first_code (String.◌∷◌ c s) = code c

abbrev after_first : String → String
after_first String.[] = ""
after_first (String.◌∷◌ c s) = s

bar_first : (b i : String) → b ≡ "|" → no_bar (String.◌++◌ b i) ≡ false
bar_first String.[] i h = let clash : true ≡ false = ap is_empty h in ground arith
bar_first (String.◌∷◌ c b) i h =
    let head : code c ≡ b'|' = ap first_code h in ap no_bar (λ k. cons c b i k) ∙ ground arith

bar_inside : (u i : String) → no_bar (String.◌++◌ u (String.◌++◌ "|" i)) ≡ false
bar_inside String.[] i = ap no_bar (λ k. nil (String.◌++◌ "|" i) k) ∙ bar_first "|" i refl
bar_inside (String.◌∷◌ c u) i =
    ap no_bar (λ k. cons c u (String.◌++◌ "|" i) k) ∙ ground (arith, bar_inside u i)

-- A text before a bar against no text before it: the rest would have a bar.
bar_after :
    (b i : String) (d : Char) (v j : String)
    → b ≡ "|"
    → no_bar i ≡ true
    → String.◌++◌ b i ≡ String.◌∷◌ d (String.◌++◌ v (String.◌++◌ "|" j))
    → false ≡ true
bar_after String.[] i d v j h ni same = sym (ap is_empty h)
bar_after (String.◌∷◌ c b) i d v j h ni same =
    let empty : b ≡ "" = ap after_first h in
    let tails : String.◌∷◌ c (String.◌++◌ b i) ≡ String.◌∷◌ d (String.◌++◌ v (String.◌++◌ "|" j)) =
      sym (λ k. cons c b i k) ∙ same in
    let rest : String.◌++◌ b i ≡ String.◌++◌ v (String.◌++◌ "|" j) = ap after_first tails in
    let whole : i ≡ String.◌++◌ v (String.◌++◌ "|" j) =
      sym (λ k. nil i k) ∙ sym (ap (λ x. String.◌++◌ x i) empty) ∙ rest in
    sym (bar_inside v j) ∙ sym (ap no_bar whole) ∙ ni

apart_at_bar :
    (u v i j : String)
    → no_bar i ≡ true
    → no_bar j ≡ true
    → String.◌++◌ u (String.◌++◌ "|" i) ≡ String.◌++◌ v (String.◌++◌ "|" j)
    → (u ≡ v) × (i ≡ j)
apart_at_bar String.[] String.[] i j ni nj h = (
  refl,
  append_cancel_left "|" i j
      (sym (λ k. nil (String.◌++◌ "|" i) k) ∙ h ∙ λ k. nil (String.◌++◌ "|" j) k),
)
apart_at_bar String.[] (String.◌∷◌ d v) i j ni nj h =
    let absurd =
      bar_after "|" i d v j refl ni
        (sym (λ k. nil (String.◌++◌ "|" i) k) ∙ h ∙ λ k. cons d v (String.◌++◌ "|" j) k) in
    ground (arith, absurd)
apart_at_bar (String.◌∷◌ c u) String.[] i j ni nj h =
    let absurd =
      bar_after "|" j c u i refl nj
        (sym (λ k. nil (String.◌++◌ "|" j) k) ∙ sym h ∙ λ k. cons c u (String.◌++◌ "|" i) k) in
    ground (arith, absurd)
apart_at_bar (String.◌∷◌ c u) (String.◌∷◌ d v) i j ni nj h =
    let whole : String.◌∷◌ c (String.◌++◌ u (String.◌++◌ "|" i))
        ≡ String.◌∷◌ d (String.◌++◌ v (String.◌++◌ "|" j)) =
      sym (λ k. cons c u (String.◌++◌ "|" i) k) ∙ h ∙ λ k. cons d v (String.◌++◌ "|" j) k in
    let (same_u, same_i) = apart_at_bar u v i j ni nj (ground (arith, whole)) in
    (ground (arith, whole, same_u), same_i)

-- The key tells user names and addresses apart.
str_eq-key :
    (u i username ip : String)
    → no_bar i ≡ true
    → no_bar ip ≡ true
    → str_eq (key u i) (key username ip) ≡ (str_eq u username && str_eq i ip)
unfolding key
str_eq-key u i username ip ni nip = ground (
  arith,
  eq_iff (String.◌++◌ u (String.◌++◌ "|" i)) (String.◌++◌ username (String.◌++◌ "|" ip)),
  eq_iff u username,
  eq_iff i ip,
  apart_at_bar u username i ip ni nip,
)

failures-failures_of :
    (username ip : String) (attempts : List Attempt) (log : List ℕ)
    → no_bar ip ≡ true
    → no_bars attempts ≡ true
    → failures (key username ip) attempts log ≡ failures_of username ip attempts log
unfolding failures failures_of remember
failures-failures_of username ip [] log nip h = refl
failures-failures_of username ip (checked u i now elapsed_at ∷ rest) log nip h =
    failures-failures_of username ip rest log nip (ground arith)
failures-failures_of username ip (failed u i now pushed_at ∷ rest) log nip h =
    let rest_ok : no_bars rest ≡ true = ground arith in
    let same = str_eq-key u i username ip (ground arith) nip in
    rw same (
      failures-failures_of username ip rest
        (if str_eq u username && str_eq i ip then log ++ pushed_at ∷ [] else log) nip rest_ok)
failures-failures_of username ip (succeeded u i ∷ rest) log nip h =
    let rest_ok : no_bars rest ≡ true = ground arith in
    let same = str_eq-key u i username ip (ground arith) nip in
    rw same (
      failures-failures_of username ip rest (if str_eq u username && str_eq i ip then [] else log)
        nip rest_ok)

-- Where at least one attempt is allowed and no address has a bar in its text, after any attempts whose
-- clock does not go back, a check lets a user name and address through exactly if fewer failures than
-- the maximum were recorded for that name and address since their last success within the window: what
-- the limiter has thrown away never counts, and other names and addresses never do.
pub check_exact :
    (window : Duration) (max_attempts : ℕ) (attempts : List Attempt) (username ip : String)
    (low now elapsed_at : ℕ)
    → 0 < max_attempts
    → no_bar ip ≡ true
    → no_bars attempts ≡ true
    → IsTimed low attempts now
    → allows
        (check username ip now elapsed_at (play_all attempts (with_params window max_attempts))).0
      ≡ ltb (recent window now (failures_of username ip attempts [])) max_attempts
check_exact window max_attempts attempts username ip low now elapsed_at h nip bars timed =
    check_by_key window max_attempts attempts username ip low now elapsed_at h timed
    ∙ ap (λ log. ltb (recent window now log) max_attempts)
        (failures-failures_of username ip attempts [] nip bars)
