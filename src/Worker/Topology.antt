-- ===== src/Worker/Topology.antt =====
-- The subjects that the stream is declared with, and those that get a consumer.
use kokkeak_api.Worker.{topology, consumed, handler_for, WorkerConfig}
use kokkeak_api.Prelude.{
  refl, none, some, true, false, [], ◌∷◌, List, String, Bool, ◌≡◌, ◌&&◌, str_eq, arith, ◌++◌, ◌||◌,
  eq_iff,
}
use kokkeak_api.Worker.Claims.{contains}

contains-append :
    (k : String) (xs ys : List String) → contains k (xs ++ ys) ≡ (contains k xs || contains k ys)
contains-append k [] ys = refl
contains-append k (x ∷ xs) ys = ground (arith, contains-append k xs ys)

-- The stream is declared for exactly the configured subjects and the dead-letter subject.
pub contains-topology :
    (cfg : WorkerConfig) (k : String)
    → contains k (topology cfg) ≡ (contains k cfg.subjects || str_eq cfg.dlq_subject k)
unfolding topology
contains-topology cfg k =
    ground (arith, contains-append k cfg.subjects (cfg.dlq_subject ∷ []), eq_iff cfg.dlq_subject k)

abbrev pub has_handler {ℓ} : {H : Type ℓ} → String → List (String × H) → Bool
has_handler k [] = false
has_handler k ((name, h) ∷ rest) = str_eq name k || has_handler k rest

handler_for-has_handler {ℓ} :
    {H : Type ℓ} (k : String) (handlers : List (String × H))
    → has_handler k handlers ≡ elim (handler_for k handlers) [ none ↦ false | some h ↦ true ]
unfolding handler_for
handler_for-has_handler k [] = refl
handler_for-has_handler k ((name, h) ∷ rest) = ground (arith, handler_for-has_handler k rest)

-- A subject gets a consumer exactly if it is configured and some handler is registered for it.
pub contains-consumed {ℓ} :
    {H : Type ℓ} (handlers : List (String × H)) (subjects : List String) (k : String)
    → contains k (consumed handlers subjects) ≡ (contains k subjects && has_handler k handlers)
unfolding consumed
contains-consumed handlers [] k = refl
contains-consumed handlers (s ∷ rest) k =
    ground
      (arith, contains-consumed handlers rest k, handler_for-has_handler s handlers, eq_iff s k)
