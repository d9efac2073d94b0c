-- ===== src/Worker/Delivery.antt =====
-- What one delivery, and a run of deliveries, do: how they end, and how often a handler runs.
use kokkeak_api.Prelude.{
  ℕ, suc, ◌+◌, ◌<◌, ◌^◌, String, ◌≡◌, refl, true, false, List, [], ◌∷◌, ◌++◌, str_eq, if◌then◌else◌,
  arith, ◌≤◌, length, Bool-cases, inl, inr, eq_iff, eq_refl,
}
use kokkeak_api.Duration.{as_millis}
use kokkeak_api.Worker.Retry.{delay_for-le-longest_delay}
use kokkeak_api.Worker.{
  WorkerConfig, ClaimResult, ok, err, Idempotency, HandlerResult, done, failed, Effect, handled,
  acked, naked, dlq_published, termed, panicked, Arrival, Client, message_id, retry_count, conclude,
  work, after_claim, key_of, process, in_memory, process_all,
}
use kokkeak_api.Worker.Claims.{InMemoryIdempotency, contains, cache_key}
use kokkeak_api.Worker.Claims.Laws.{claim-below, claim-claimed}

-- How many times a list of effects settles the delivery with the broker.
unfoldable pub settled : List Effect → ℕ
settled [] = 0
settled (acked ∷ es) = suc (settled es)
settled (naked d ∷ es) = suc (settled es)
settled (termed ∷ es) = suc (settled es)
settled (handled i p ∷ es) = settled es
settled (dlq_published q p ∷ es) = settled es
settled (panicked ∷ es) = settled es

-- How many times the handler ran on a message with this id.
unfoldable pub runs : String → List Effect → ℕ
runs i [] = 0
runs i (handled j p ∷ es) = if str_eq j i then suc (runs i es) else runs i es
runs i (acked ∷ es) = runs i es
runs i (naked d ∷ es) = runs i es
runs i (dlq_published q p ∷ es) = runs i es
runs i (termed ∷ es) = runs i es
runs i (panicked ∷ es) = runs i es

runs-append : (i : String) (xs ys : List Effect) → runs i (xs ++ ys) ≡ runs i xs + runs i ys
unfolding runs
runs-append i [] ys = omega arith
runs-append i (handled j p ∷ es) ys = ground (arith, runs-append i es ys)
runs-append i (acked ∷ es) ys = runs-append i es ys
runs-append i (naked d ∷ es) ys = runs-append i es ys
runs-append i (dlq_published q p ∷ es) ys = runs-append i es ys
runs-append i (termed ∷ es) ys = runs-append i es ys
runs-append i (panicked ∷ es) ys = runs-append i es ys

module _ (c : Client) (cfg : WorkerConfig) (subject : String) where
  runs-conclude :
      (i : String) (a : Arrival) (r : HandlerResult) → runs i (conclude c cfg subject a r) ≡ 0
  unfolding runs conclude
  runs-conclude i a r = ground arith

  settled-conclude :
      (a : Arrival) (r : HandlerResult)
      → as_millis cfg.retry_policy.max_delay < 2 ^ 63
      → settled (conclude c cfg subject a r) ≡ 1
  unfolding settled conclude
  settled-conclude a done h = refl
  settled-conclude a (failed reason) h =
      ground (arith, delay_for-le-longest_delay cfg.retry_policy (retry_count a.message) a.nanos h)

  settled-after_claim :
      (a : Arrival) (r : ClaimResult)
      → as_millis cfg.retry_policy.max_delay < 2 ^ 63
      → settled (after_claim c cfg subject a r) ≡ 1
  unfolding after_claim work settled
  settled-after_claim a (ok true) h =
      settled-conclude a (a.handle (message_id c a) a.message.payload) h
  settled-after_claim a (ok false) h = refl
  settled-after_claim a (err e) h =
      settled-conclude a (a.handle (message_id c a) a.message.payload) h

-- Whatever the claim and the handler answer, a delivery is settled with the broker exactly once: it
-- is acknowledged, refused with a delay, or terminated. (The policy's longest delay must stay below
-- 2^63 milliseconds.)
pub settled-process :
    {S : Type 0} (store : Idempotency S) (c : Client) (cfg : WorkerConfig) (subject : String)
    (a : Arrival) (s : S)
    → as_millis cfg.retry_policy.max_delay < 2 ^ 63
    → settled (process store c cfg subject a s).0 ≡ 1
unfolding process
settled-process store c cfg subject a s h =
    settled-after_claim c cfg subject a (store.claim (key_of c subject a) cfg.idempotency_ttl s).0 h

-- 1 if the message with this id is claimed for the subject, and 0 if not.
unfoldable pub held : String → String → InMemoryIdempotency → ℕ
held subject i s =
    if contains (cache_key (record { consumer = subject; message_id = i })) s.seen then 1 else 0

held-le-one : (subject i : String) (s : InMemoryIdempotency) → held subject i s ≤ 1
unfolding held
held-le-one subject i s = ground arith

module _ (iter : List String → List String) (c : Client) (cfg : WorkerConfig)
    (subject : String) where
  -- the keys of the set after one delivery
  seen_after :
      (a : Arrival) (s : InMemoryIdempotency)
      → length s.seen < s.max_entries
      → let s' = (process (in_memory iter) c cfg subject a s).1 in
        (length s'.seen ≤ length s.seen + 1) × (s'.max_entries ≡ s.max_entries)
  unfolding process
  seen_after a s room = rw (claim-below iter (key_of c subject a) s room) (ground arith)

  runs-work :
      (i : String) (a : Arrival)
      → runs i (work c cfg subject a) ≡ (if str_eq (message_id c a) i then 1 else 0)
  unfolding work runs
  runs-work i a =
      ground (arith, runs-conclude c cfg subject i a (a.handle (message_id c a) a.message.payload))

  -- A first delivery runs the handler and holds its id; nothing that is held is let go.
  held_after :
      (i : String) (a : Arrival) (s : InMemoryIdempotency)
      → contains (cache_key (key_of c subject a)) s.seen ≡ false
      → (if str_eq (message_id c a) i then 1 else 0) + held subject i s
        ≤ held subject i (record s { seen = cache_key (key_of c subject a) ∷ s.seen })
  unfolding held
  held_after i a s new = elim (Bool-cases (str_eq (message_id c a) i)) [
    | inl same ↦ rw (← (eq_iff (message_id c a) i).0 same, eq_refl, new, eq_refl) (omega arith)
    | inr other ↦ rw other (ground arith)
  ]

  runs_once :
      (i : String) (a : Arrival) (s : InMemoryIdempotency)
      → length s.seen < s.max_entries
      → let (effects, s') = process (in_memory iter) c cfg subject a s in
        runs i effects + held subject i s ≤ held subject i s'
  unfolding process after_claim
  runs_once i a s room =
      rw (claim-below iter (key_of c subject a) s room)
        (elim (Bool-cases (contains (cache_key (key_of c subject a)) s.seen)) [
          | inl old ↦ rw old (unfold runs in omega arith)
          | inr new ↦ rw (new, runs-work) (held_after i a s new)
        ])

  runs_all :
      (i : String) (arrivals : List Arrival) (s : InMemoryIdempotency)
      → length s.seen + length arrivals ≤ s.max_entries
      → let (effects, s') = process_all (in_memory iter) c cfg subject arrivals s in
        runs i effects + held subject i s ≤ held subject i s'
  unfolding process_all runs
  runs_all i [] s room = omega arith
  runs_all i (a ∷ rest) s room =
      let s' = (process (in_memory iter) c cfg subject a s).1 in
      let after = seen_after a s (omega arith) in
      omega (
        arith,
        runs-append i (process (in_memory iter) c cfg subject a s).0
            (process_all (in_memory iter) c cfg subject rest s').0,
        runs_once i a s (omega arith),
        runs_all i rest s' (omega (arith, after)),
      )

  -- Each delivery whose message is already claimed when it comes is acknowledged, and nothing else.
  abbrev pub Deduplicated : List Arrival → InMemoryIdempotency → Type 0
  Deduplicated [] s = Unit {0}
  Deduplicated (a ∷ rest) s =
      (held subject (message_id c a) s ≡ 1
        → (process (in_memory iter) c cfg subject a s).0 ≡ acked ∷ [])
      × Deduplicated rest (process (in_memory iter) c cfg subject a s).1

  acked_when_held :
      (a : Arrival) (s : InMemoryIdempotency)
      → held subject (message_id c a) s ≡ 1
      → (process (in_memory iter) c cfg subject a s).0 ≡ acked ∷ []
  unfolding process after_claim held
  acked_when_held a s h = elim (Bool-cases (contains (cache_key (key_of c subject a)) s.seen)) [
    | inl old ↦ rw (claim-claimed iter (key_of c subject a) s old)
    | inr new ↦ ground arith
  ]

  all-Deduplicated : (arrivals : List Arrival) (s : InMemoryIdempotency) → Deduplicated arrivals s
  all-Deduplicated [] s = tt
  all-Deduplicated (a ∷ rest) s =
      (acked_when_held a s, all-Deduplicated rest (process (in_memory iter) c cfg subject a s).1)

  -- As long as the store has room for every delivery, the handler runs at most once for each message
  -- id, and not at all for one that was claimed before; and a delivery of a message that is claimed
  -- when it comes is acknowledged, with nothing else done.
  pub handled_at_most_once :
      (i : String) (arrivals : List Arrival) (s : InMemoryIdempotency)
      → length s.seen + length arrivals ≤ s.max_entries
      → (runs i (process_all (in_memory iter) c cfg subject arrivals s).0 + held subject i s ≤ 1)
        × Deduplicated arrivals s
  handled_at_most_once i arrivals s room = (
    omega (
      arith,
      runs_all i arrivals s room,
      held-le-one subject i (process_all (in_memory iter) c cfg subject arrivals s).1,
    ),
    all-Deduplicated arrivals s,
  )
