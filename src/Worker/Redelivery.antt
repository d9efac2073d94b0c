-- ===== src/Worker/Redelivery.antt =====
-- A refused delivery comes back from the broker with the same headers and payload. Its claim is
-- still held, so the redelivery is taken for a duplicate.
use kokkeak_api.Prelude.{ℕ, List, [], ◌≡◌, ◌∷◌, suc, zero}
use kokkeak_api.Worker.{Client, Arrival, Effect, message_id, acked}
use kokkeak_api.Duration.{Duration}

-- What the broker redelivers of a message has the id of the message.
abbrev pub AllRedeliver : Client → Arrival → List Arrival → Type 0
AllRedeliver c a [] = Unit
AllRedeliver c a (b ∷ rest) = (message_id c b ≡ message_id c a) × AllRedeliver c a rest

-- Only acknowledgements, one for each of `n` deliveries.
abbrev pub acks : ℕ → List Effect
acks zero = []
acks (suc n) = acked ∷ acks n
