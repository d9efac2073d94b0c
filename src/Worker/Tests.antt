-- ===== src/Worker/Tests.antt =====
-- The tests of crates/worker/src/idempotency.rs, and the theorems at concrete messages.
use kokkeak_api.Worker.{
  default_worker, Arrival, message_id, Client, process, failed, done, after_claim, retry_count,
  in_memory, process_all, work, handled, conclude, dlq_published, termed,
}
use kokkeak_api.Worker.Claims.{claim, new, IdempotencyKey}
use kokkeak_api.Prelude.{
  refl, none, some, true, false, [], ◌∷◌, String, List, Option, ◌+◌, ◌≡◌, ◌≤◌, arith, if◌then◌else◌,
  str_eq,
}
use kokkeak_api.Worker.Claims.{InMemoryIdempotency, cache_key}
use kokkeak_api.Duration.{Duration}
use kokkeak_api.Worker.Delivery.{
  runs, settled, held, settled-process, handled_at_most_once, Deduplicated,
}
use kokkeak_api.Worker.Retry.{should_retry}
use kokkeak_api.Text.{parse_u32}

abbrev no_order : List String → List String
no_order l = l

abbrev client : Client
client = record {
  nats_message_id = "Nats-Msg-Id";
  nats_sequence = "Nats-Sequence";
  to_vec = λ p. some p.payload;
}

abbrev headers : String → Option String
headers name = if str_eq name "Nats-Msg-Id" then some "m-1" else none

abbrev failing : Arrival
failing = record {
  message = record { headers = some headers; payload = 7 ∷ [] };
  fresh_uuid = "u";
  nanos = 12;
  handle = λ i p. failed "smtp down";
}

abbrev working : Arrival
working = record failing { handle = λ i p. done }

abbrev headers_spent : String → Option String
headers_spent name =
    if str_eq name "Nats-Msg-Id"
    then some "m-1"
    else if str_eq name "x-retry-count"
    then some "5"
    else none

abbrev spent : Arrival
spent = record failing { message = record { headers = some headers_spent; payload = 7 ∷ [] } }

abbrev empty_store : InMemoryIdempotency
empty_store = new 100

first_claim_succeeds_second_fails :
    let key : IdempotencyKey = record { consumer = "noti.push"; message_id = "msg-1" } in
    let (first, s) = claim no_order key empty_store in
    (first ≡ true) × ((claim no_order key s).0 ≡ false)
unfolding claim cache_key
first_claim_succeeds_second_fails = (refl, refl)

spent_goes_to_dlq :
    (process (in_memory no_order) client default_worker "comm.email" spent empty_store).0
    ≡ handled "m-1" (7 ∷ []) ∷ dlq_published "kokkak.dlq" (7 ∷ []) ∷ termed ∷ []
unfolding process after_claim work conclude claim cache_key message_id retry_count parse_u32
    should_retry
spent_goes_to_dlq = refl

settled-process_example :
    settled (process (in_memory no_order) client default_worker "comm.email" failing empty_store).0
    ≡ 1
settled-process_example =
    settled-process (in_memory no_order) client default_worker "comm.email" failing empty_store
      (omega arith)

handled_at_most_once_example :
    (runs "m-1"
          (process_all
            (in_memory no_order)
            client
            default_worker
            "comm.email"
            (working ∷ working ∷ [])
            empty_store).0
        + held "comm.email" "m-1" empty_store
      ≤ 1)
    × Deduplicated no_order client default_worker "comm.email" (working ∷ working ∷ []) empty_store
handled_at_most_once_example =
    handled_at_most_once no_order client default_worker "comm.email" "m-1" (working ∷ working ∷ [])
      empty_store (omega arith)
