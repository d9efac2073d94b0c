-- ===== src/Worker.antt =====
-- The background worker: crates/worker/src/runner.rs. A consumer takes the messages of one subject
-- one after another; `process` is the body of its inner loop for one delivery, and returns what it
-- did, in order. Acknowledgements and publications whose failure the code only logs are effects.
pub mod Retry
pub mod Claims
pub mod Delivery
pub mod Redelivery
pub mod Topology
mod Tests
use kokkeak_api.Prelude.{
  ℕ, String, Bool, true, false, ◌||◌, Option, none, some, List, [], ◌∷◌, ◌++◌, str_eq,
  if◌then◌else◌,
}
use kokkeak_api.Duration.{Duration, from_secs}
use kokkeak_api.Text.{parse_u32}
use kokkeak_api.Worker.Retry.{RetryPolicy, default_policy, delay_for, should_retry}
use kokkeak_api.Worker.Claims.{IdempotencyKey, InMemoryIdempotency, claim, contains}

pub record WorkerConfig : Type 0 where
  pub subjects : List String
  pub stream_name : String
  pub idempotency_ttl : Duration
  pub pull_max_messages : ℕ
  pub pull_expires_in : Duration
  pub retry_policy : RetryPolicy
  pub dlq_subject : String

abbrev pub default_worker : WorkerConfig
default_worker = record {
  subjects =
      "noti.push" ∷ "comm.email" ∷ "comm.sms" ∷ "chat.persist" ∷ "order.dispatch" ∷ "points.recalc"
      ∷ "report.generate" ∷ "media.process" ∷ "audit.write" ∷ [];
  stream_name = "kokkak.events";
  idempotency_ttl = from_secs 86400;
  pull_max_messages = 100;
  pull_expires_in = from_secs 30;
  retry_policy = default_policy;
  dlq_subject = "kokkak.dlq";
}

-- What `claim` of the trait `Idempotency` returns.
pub data ClaimResult : Type 0 where
  ok : Bool → ClaimResult
  err : String → ClaimResult

-- An implementation of the trait `Idempotency` over its store's state.
pub record Idempotency (S : Type 0) : Type 0 where
  pub claim : IdempotencyKey → Duration → S → ClaimResult × S

-- `InMemoryIdempotency` as such an implementation.
abbrev pub in_memory : (List String → List String) → Idempotency InMemoryIdempotency
in_memory iter = record { claim = λ key ttl s. (ok (claim iter key s).0, (claim iter key s).1) }

-- `Result<(), HandlerError>`.
pub data HandlerResult : Type 0 where
  done : HandlerResult
  failed : String → HandlerResult

pub record Message : Type 0 where
  pub headers : Option (String → Option String)
  pub payload : List ℕ

pub record DlqPayload : Type 0 where
  pub original_subject : String
  pub message_id : String
  pub retry_count : ℕ
  pub last_error : String
  pub payload : List ℕ

pub data Effect : Type 0 where
  handled : String → List ℕ → Effect
  acked : Effect
  naked : Duration → Effect
  dlq_published : String → List ℕ → Effect
  termed : Effect
  -- the division by zero in `delay_for`
  panicked : Effect

-- What comes from outside at one delivery: the message, a fresh UUID, the clock's nanoseconds, and
-- what the handler answers.
pub record Arrival : Type 0 where
  pub message : Message
  pub fresh_uuid : String
  pub nanos : ℕ
  pub handle : String → List ℕ → HandlerResult

-- The names that the crate `async_nats` gives its headers, and `serde_json`'s encoding of a payload
-- for the dead-letter queue.
pub record Client : Type 0 where
  pub nats_message_id : String
  pub nats_sequence : String
  pub to_vec : DlqPayload → Option (List ℕ)

header : Message → String → Option String
header m name = elim m.headers [ none ↦ none | some get ↦ get name ]

abbrev or_else : Option String → String → String
or_else none d = d
or_else (some s) d = s

abbrev or_zero : Option ℕ → ℕ
or_zero none = 0
or_zero (some n) = n

abbrev and_then : Option String → (String → Option ℕ) → Option ℕ
and_then none f = none
and_then (some s) f = f s

pub message_id : Client → Arrival → String
unfolding header
message_id c a =
    or_else (header a.message c.nats_message_id)
      (or_else (header a.message c.nats_sequence) a.fresh_uuid)

pub retry_count : Message → ℕ
unfolding header
retry_count m = or_zero (and_then (header m "x-retry-count") parse_u32)

nak : Option Duration → List Effect
nak none = panicked ∷ []
nak (some delay) = naked delay ∷ []

publish : String → Option (List ℕ) → List Effect
publish subject none = []
publish subject (some bytes) = dlq_published subject bytes ∷ []

-- What follows the handler's answer.
pub conclude : Client → WorkerConfig → String → Arrival → HandlerResult → List Effect
unfolding nak publish
conclude c cfg subject a done = acked ∷ []
conclude c cfg subject a (failed reason) =
    let count = retry_count a.message in
    if should_retry cfg.retry_policy count
    then nak (delay_for cfg.retry_policy count a.nanos)
    else publish cfg.dlq_subject (
        c.to_vec (record {
          original_subject = subject;
          message_id = message_id c a;
          retry_count = count;
          last_error = reason;
          payload = a.message.payload;
        }))
      ++ termed ∷ []

work : Client → WorkerConfig → String → Arrival → List Effect
unfolding conclude
work c cfg subject a =
    handled (message_id c a) a.message.payload
    ∷ conclude c cfg subject a (a.handle (message_id c a) a.message.payload)

-- A failed check of the claim is logged, and the message is worked on.
after_claim : Client → WorkerConfig → String → Arrival → ClaimResult → List Effect
unfolding work
after_claim c cfg subject a (ok true) = work c cfg subject a
after_claim c cfg subject a (ok false) = acked ∷ []
after_claim c cfg subject a (err e) = work c cfg subject a

-- The key under which a delivery claims its message.
abbrev pub key_of : Client → String → Arrival → IdempotencyKey
key_of c subject a = record { consumer = subject; message_id = message_id c a }

module _ {S : Type 0} (store : Idempotency S) (c : Client) (cfg : WorkerConfig)
    (subject : String) where
  pub process : Arrival → S → List Effect × S
  unfolding after_claim
  process a s =
      let (claimed, s') = store.claim (key_of c subject a) cfg.idempotency_ttl s in
      (after_claim c cfg subject a claimed, s')

  pub process_all : List Arrival → S → List Effect × S
  process_all [] s = ([], s)
  process_all (a ∷ rest) s =
      let (effects, s') = process a s in
      let (more, s'') = process_all rest s' in (effects ++ more, s'')

-- The subjects that `ensure_topology` declares.
pub topology : WorkerConfig → List String
topology cfg =
    if contains cfg.dlq_subject cfg.subjects
    then cfg.subjects
    else cfg.subjects ++ cfg.dlq_subject ∷ []

-- The handlers by subject: a later one replaces an earlier.
pub handler_for {ℓ} : {H : Type ℓ} → String → List (String × H) → Option H
handler_for subject [] = none
handler_for subject ((name, h) ∷ rest) =
    let later = handler_for subject rest in
    elim later [ some g ↦ some g | none ↦ if str_eq name subject then some h else none ]

-- The subjects that get a consumer.
pub consumed {ℓ} : {H : Type ℓ} → List (String × H) → List String → List String
unfolding handler_for
consumed handlers [] = []
consumed handlers (subject ∷ rest) =
    let more = consumed handlers rest in
    elim (handler_for subject handlers) [ none ↦ more | some h ↦ subject ∷ more ]
