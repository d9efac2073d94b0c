-- ===== src/Cache/Types.antt =====
-- Caching as the domain sees it, crates/domain/src/cache.rs, and the two stores behind the layered
-- cache: the crate moka in memory and the crate redis, both over a state of their own.
use Prim.Native.String
use kokkeak_api.Duration.{Duration, from_secs}
use kokkeak_api.Prelude.{ℕ, String, List, Option, Bool, none, some, true, false, ◌≡◌, ◌≢◌, ◌⊎◌}

infixr 65 ◌++ₛ◌
abbrev ◌++ₛ◌ : String → String → String
s ++ₛ t = String.◌++◌ s t

abbrev pub Bytes : Type 0
Bytes = List ℕ

pub data CacheGroup : Type 0 where
  a b c d : CacheGroup

pub default_ttl : CacheGroup → Option Duration
default_ttl a = some (from_secs 3600)
default_ttl b = some (from_secs 300)
default_ttl c = some (from_secs 60)
default_ttl d = none

pub allows_caching : CacheGroup → Bool
allows_caching a = true
allows_caching b = true
allows_caching c = true
allows_caching d = false

pub data CacheError : Type 0 where
  backend codec timeout : String → CacheError

pub data Answer (A : Type 0) : Type 0 where
  good : A → Answer A
  bad : CacheError → Answer A

-- `CacheKey::new`; a key is its text.
pub cache_key_of : String → String → String → String → String
cache_key_of version domain entity id =
    "kokkeak:" ++ₛ version ++ₛ ":" ++ₛ domain ++ₛ ":" ++ₛ entity ++ₛ ":" ++ₛ id

pub with_variant : String → String → String
with_variant key variant = key ++ₛ ":" ++ₛ variant

-- moka's cache: it may drop an entry whenever it likes, so reading is an action too. `peek` is what
-- the cache holds at a key.
pub record Moka (M : Type 0) : Type 0 where
  pub get : String → M → Option Bytes × M
  pub insert : String → Bytes → M → M
  pub invalidate : String → M → M
  pub peek : String → M → Option Bytes

-- A Redis connection, whose pool and network can fail: `GET`, `SETEX`, `DEL`, `PUBLISH`. `holds` is
-- what the server holds at a key.
pub record Redis (R : Type 0) : Type 0 where
  pub get : String → R → Answer (Option Bytes) × R
  pub set_ex : String → Bytes → ℕ → R → Answer (Unit {0}) × R
  pub del : String → R → Answer ℕ × R
  pub publish : String → String → R → Answer ℕ × R
  pub holds : String → R → Option Bytes

-- What the cache relies on of moka: an entry is never made up, and an invalidation takes effect.
pub record MokaLaws {M : Type 0} (m : Moka M) : Type 0 where
  pub get_sound : (k : String) (v : Bytes) (w : M) → (m.get k w).0 ≡ some v → m.peek k w ≡ some v
  pub get_keeps :
      (k k' : String) (v : Bytes) (w : M) → m.peek k' (m.get k w).1 ≡ some v → m.peek k' w ≡ some v
  pub insert_other :
      (k k' : String) (u v : Bytes) (w : M)
      → m.peek k' (m.insert k u w) ≡ some v
      → k' ≢ k
      → m.peek k' w ≡ some v
  pub insert_same : (k : String) (u v : Bytes) (w : M) → m.peek k (m.insert k u w) ≡ some v → v ≡ u
  pub invalidate_keeps :
      (k k' : String) (v : Bytes) (w : M)
      → m.peek k' (m.invalidate k w) ≡ some v
      → m.peek k' w ≡ some v
  pub invalidate_gone : (k : String) (w : M) → m.peek k (m.invalidate k w) ≡ none

-- What it relies on of Redis: only `SETEX` writes, at its key; one that is acknowledged has written,
-- and so has a `DEL`.
pub record RedisLaws {R : Type 0} (r : Redis R) : Type 0 where
  pub get_sound :
      (k : String) (v : Bytes) (w : R) → (r.get k w).0 ≡ good (some v) → r.holds k w ≡ some v
  pub get_none : (k : String) (w : R) → (r.get k w).0 ≡ good none → r.holds k (r.get k w).1 ≡ none
  pub get_keeps :
      (k k' : String) (v : Bytes) (w : R)
      → r.holds k' (r.get k w).1 ≡ some v
      → r.holds k' w ≡ some v
  pub set_other :
      (k k' : String) (u v : Bytes) (secs : ℕ) (w : R)
      → r.holds k' (r.set_ex k u secs w).1 ≡ some v
      → k' ≢ k
      → r.holds k' w ≡ some v
  pub set_same :
      (k : String) (u v : Bytes) (secs : ℕ) (w : R)
      → r.holds k (r.set_ex k u secs w).1 ≡ some v
      → (v ≡ u) ⊎ (r.holds k w ≡ some v)
  pub set_done :
      (k : String) (u v : Bytes) (secs : ℕ) (w : R)
      → (r.set_ex k u secs w).0 ≡ good tt
      → r.holds k (r.set_ex k u secs w).1 ≡ some v
      → v ≡ u
  pub del_keeps :
      (k k' : String) (v : Bytes) (w : R)
      → r.holds k' (r.del k w).1 ≡ some v
      → r.holds k' w ≡ some v
  pub del_done :
      (k : String) (n : ℕ) (w : R) → (r.del k w).0 ≡ good n → r.holds k (r.del k w).1 ≡ none
  pub publish_keeps :
      (k c p : String) (v : Bytes) (w : R)
      → r.holds k (r.publish c p w).1 ≡ some v
      → r.holds k w ≡ some v
