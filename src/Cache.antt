-- ===== src/Cache.antt =====
-- The layered cache: crates/infra/src/cache/layer.rs over crates/infra/src/cache/redis.rs. A call of
-- `get_or_load` is one step here: what another call can leave behind, an entry in the table of the
-- flights, is in the state, and whether that table is locked when a call wants to remove its entry
-- is an argument. Counters and tracing are left out.
pub mod Types
pub mod Remote
pub mod Coherence
pub mod Refinement
pub mod Flights
mod Tests
use Prim.Native.String
use kokkeak_api.Cache.Types.{Bytes, CacheError, Answer, good, bad, Moka, Redis}
use kokkeak_api.Dict.{Dict, lookup, insert, erase}
use kokkeak_api.Duration.{Duration, from_secs, as_secs}
use kokkeak_api.Prelude.{
  ℕ, String, Option, Bool, max, none, some, true, false, if◌then◌else◌, ◌/◌, ltb,
}

pub record LayeredCache (M R : Type 0) : Type 0 where
  pub l1 : M
  pub l2 : R
  -- the flights that are left in the table, each with the value that its loader gave
  pub inflight : Dict (Option Bytes)

-- `RedisCache`, at a namespace.
module _ {R : Type 0} (redis : Redis R) (namespace : String) where
  pub prefixed_key : String → String
  prefixed_key key = String.◌++◌ namespace (String.◌++◌ ":" key)

  pub redis_get : String → R → Answer (Option Bytes) × R
  redis_get key = redis.get (prefixed_key key)

  pub redis_set : String → Bytes → Duration → R → Answer (Unit {0}) × R
  redis_set key value ttl = redis.set_ex (prefixed_key key) value (max (as_secs ttl) 1)

  pub redis_delete : String → R → Answer Bool × R
  redis_delete key r =
      let (answer, r') = redis.del (prefixed_key key) r in
      (elim answer [ good removed ↦ good (ltb 0 removed) | bad e ↦ bad e ], r')

  -- It publishes the key, and deletes nothing.
  pub redis_invalidate : String → R → Answer (Unit {0}) × R
  redis_invalidate key r =
      let (answer, r') = redis.publish (String.◌++◌ namespace ".cache.invalidate") key r in
      (elim answer [ good n ↦ good tt | bad e ↦ bad e ], r')

-- What a call of `get_or_load` returns, and whether it has run its loader.
pub record Loaded : Type 0 where
  pub answer : Answer Bytes
  pub ran : Bool

-- The life of a value that stands for a missing one is shorter.
pub effective_ttl : Bool → Duration → Duration
effective_ttl is_negative ttl = if is_negative then max (ttl / 4) (from_secs 5) else ttl

-- The cache with Redis, or without it where `redis` is `none`.
module _ {M R : Type 0} (moka : Moka M) (redis : Option (Redis R)) (namespace : String) where
  -- A lookup in the second tier, which without Redis finds nothing.
  pub l2_get : String → R → Answer (Option Bytes) × R
  l2_get key r = elim redis [ none ↦ (good none, r) | some s ↦ redis_get s namespace key r ]

  pub l2_set : String → Bytes → Duration → R → Answer (Unit {0}) × R
  l2_set key value ttl r = elim redis [
    | none ↦ (good tt, r)
    | some s ↦ redis_set s namespace key value ttl r
  ]

  pub l2_delete : String → R → Answer Bool × R
  l2_delete key r = elim redis [ none ↦ (good false, r) | some s ↦ redis_delete s namespace key r ]

  pub l2_invalidate : String → R → Answer (Unit {0}) × R
  l2_invalidate key r = elim redis [
    | none ↦ (good tt, r)
    | some s ↦ redis_invalidate s namespace key r
  ]

  -- Both `get` and `get_or_load` look into the tiers first, and fill the first from the second.
  pub fill :
      String
      → M
      → R
      → Dict (Option Bytes)
      → Answer (Option Bytes) × R
      → Answer (Option Bytes) × LayeredCache M R
  fill key l1 l2 flights (good (some v), l2') =
      (good (some v), record { l1 = moka.insert key v l1; l2 = l2'; inflight = flights })
  fill key l1 l2 flights (good none, l2') =
      (good none, record { l1 = l1; l2 = l2'; inflight = flights })
  fill key l1 l2 flights (bad e, l2') = (bad e, record { l1 = l1; l2 = l2'; inflight = flights })

  pub get : String → LayeredCache M R → Answer (Option Bytes) × LayeredCache M R
  get key c =
      let (hit, l1) = moka.get key c.l1 in
      elim hit [
        | some v ↦ (good (some v), record c { l1 = l1 })
        | none ↦ fill key l1 c.l2 c.inflight (l2_get key c.l2)
      ]

  pub set : String → Bytes → Duration → LayeredCache M R → Answer (Unit {0}) × LayeredCache M R
  set key value ttl c =
      let (answer, l2) = l2_set key value ttl c.l2 in
      elim answer [
        | good x ↦ (good tt, record c { l1 = moka.insert key value c.l1; l2 = l2 })
        | bad e ↦ (bad e, record c { l2 = l2 })
      ]

  pub delete : String → LayeredCache M R → Answer Bool × LayeredCache M R
  delete key c =
      let (answer, l2) = l2_delete key c.l2 in
      (answer, record c { l1 = moka.invalidate key c.l1; l2 = l2 })

  pub invalidate : String → LayeredCache M R → Answer (Unit {0}) × LayeredCache M R
  invalidate key c =
      let (answer, l2) = l2_invalidate key c.l2 in
      (answer, record c { l1 = moka.invalidate key c.l1; l2 = l2 })

  -- The listener hears an invalidation.
  pub heard : String → LayeredCache M R → LayeredCache M R
  heard key c =
      let prefixed = String.◌++◌ namespace (String.◌++◌ ":" key) in
      record c { l1 = moka.invalidate key (moka.invalidate prefixed c.l1) }

  -- The flight of a key that no tier has: one that is there already gives its value; a new one
  -- runs the loader, and is removed after it unless the table is locked by then.
  pub fly :
      String
      → Duration
      → Bool
      → Bytes × Bool
      → Option (Option Bytes)
      → LayeredCache M R
      → Loaded × LayeredCache M R
  fly key ttl locked loader (some (some v)) c = (record { answer = good v; ran = false }, c)
  fly key ttl locked (value, is_negative) other c =
      let (_, l2) = l2_set key value (effective_ttl is_negative ttl) c.l2 in
      let l1 = moka.insert key value c.l1 in
      let flights = if locked then insert key (some value) c.inflight else erase key c.inflight in
      (record { answer = good value; ran = true }, record { l1 = l1; l2 = l2; inflight = flights })

  pub get_or_load :
      String → Duration → Bool → Bytes × Bool → LayeredCache M R → Loaded × LayeredCache M R
  get_or_load key ttl locked loader c =
      let (answer, c') = get key c in
      elim answer [
        | good (some v) ↦ (record { answer = good v; ran = false }, c')
        | good none ↦ fly key ttl locked loader (lookup key c'.inflight) c'
        | bad e ↦ (record { answer = bad e; ran = false }, c')
      ]
