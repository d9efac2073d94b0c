-- ===== src/Worker/Claims/Laws.antt =====
-- What a claim promises.
use text.Mathlib.TextLemmas.{append_cancel_left}
use kokkeak_api.Prelude.{
  ◌<◌, String, ◌≡◌, true, false, List, ◌∷◌, length, eq_refl, if◌then◌else◌, arith, Bool-cases, inl,
  inr,
}
use kokkeak_api.Worker.Claims.{IdempotencyKey, cache_key, contains, InMemoryIdempotency, claim}

-- A key that has been claimed is refused, and nothing changes.
pub claim-claimed :
    (iter : List String → List String) (key : IdempotencyKey) (s : InMemoryIdempotency)
    → contains (cache_key key) s.seen ≡ true
    → claim iter key s ≡ (false, s)
unfolding claim
claim-claimed iter key s h = rw h

-- A key that has not been claimed is granted.
pub claim-fresh :
    (iter : List String → List String) (key : IdempotencyKey) (s : InMemoryIdempotency)
    → contains (cache_key key) s.seen ≡ false
    → (claim iter key s).0 ≡ true
unfolding claim
claim-fresh iter key s h = rw h

-- Whether a claim succeeds or not, the key is claimed afterwards.
pub contains-claim :
    (iter : List String → List String) (key : IdempotencyKey) (s : InMemoryIdempotency)
    → contains (cache_key key) (claim iter key s).1.seen ≡ true
unfolding claim
contains-claim iter key s = elim (Bool-cases (contains (cache_key key) s.seen)) [
  | inl old ↦ rw old old
  | inr new ↦ rw (new, eq_refl)
]

-- Below the capacity a claim adds its key and drops none.
pub claim-below :
    (iter : List String → List String) (key : IdempotencyKey) (s : InMemoryIdempotency)
    → length s.seen < s.max_entries
    → claim iter key s ≡ (
        if contains (cache_key key) s.seen
        then (false, s)
        else (true, record s { seen = cache_key key ∷ s.seen }))
unfolding claim
claim-below iter key s h = ground arith

-- Two messages of one consumer have one cache key only if they have one id.
pub cache_key-injective :
    (consumer i j : String)
    → cache_key (record { consumer = consumer; message_id = i })
      ≡ cache_key (record { consumer = consumer; message_id = j })
    → i ≡ j
unfolding cache_key
cache_key-injective consumer i j h =
    append_cancel_left ":" i j
      (append_cancel_left consumer _ _ (append_cancel_left "kokkeak:idemp:" _ _ h))
