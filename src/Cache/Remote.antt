-- ===== src/Cache/Remote.antt =====
-- The second tier of the layered cache: Redis at prefixed keys, or nothing.
use text.Mathlib.TextLemmas.{append_cancel_left}
use kokkeak_api.Cache.Types.{Bytes, Answer, good, bad, Moka, Redis, RedisLaws}
use kokkeak_api.Cache.{
  prefixed_key, l2_get, l2_set, l2_delete, l2_invalidate, redis_get, redis_set, redis_delete,
  redis_invalidate,
}
use kokkeak_api.Prelude.{ℕ, String, Option, none, some, ◌≡◌, ◌≢◌, arith, refl, inr, Bool, ◌⊎◌}

prefixed_key-injective :
    {R : Type 0} (s : Redis R) (namespace k k' : String)
    → prefixed_key s namespace k ≡ prefixed_key s namespace k'
    → k ≡ k'
unfolding prefixed_key
prefixed_key-injective s namespace k k' h =
    append_cancel_left ":" k k' (append_cancel_left namespace _ _ h)

module _ {M R : Type 0} (moka : Moka M) (namespace : String) where
  -- What the second tier holds at a key.
  abbrev pub l2_holds : Option (Redis R) → String → R → Option Bytes
  l2_holds none k r = none
  l2_holds (some s) k r = s.holds (prefixed_key s namespace k) r

  -- Without Redis nothing is relied on.
  abbrev pub RemoteLaws : Option (Redis R) → Type 0
  RemoteLaws none = Unit {0}
  RemoteLaws (some s) = RedisLaws s

  pub l2_get_sound :
      (o : Option (Redis R)) (k : String) (v : Bytes) (r : R)
      → RemoteLaws o
      → (l2_get moka o namespace k r).0 ≡ good (some v)
      → l2_holds o k r ≡ some v
  unfolding l2_get redis_get
  l2_get_sound none k v r laws h = ground arith
  l2_get_sound (some s) k v r laws h = laws.get_sound (prefixed_key s namespace k) v r h

  pub l2_get-none :
      (o : Option (Redis R)) (k : String) (r : R)
      → RemoteLaws o
      → (l2_get moka o namespace k r).0 ≡ good none
      → l2_holds o k (l2_get moka o namespace k r).1 ≡ none
  unfolding l2_get redis_get
  l2_get-none none k r laws h = refl
  l2_get-none (some s) k r laws h = laws.get_none (prefixed_key s namespace k) r h

  pub l2_get_keeps :
      (o : Option (Redis R)) (k k' : String) (v : Bytes) (r : R)
      → RemoteLaws o
      → l2_holds o k' (l2_get moka o namespace k r).1 ≡ some v
      → l2_holds o k' r ≡ some v
  unfolding l2_get redis_get
  l2_get_keeps none k k' v r laws h = h
  l2_get_keeps (some s) k k' v r laws h =
      laws.get_keeps (prefixed_key s namespace k) (prefixed_key s namespace k') v r h

  pub l2_set_other :
      (o : Option (Redis R)) (k k' : String) (u v : Bytes) (ttl : ℕ) (r : R)
      → RemoteLaws o
      → l2_holds o k' (l2_set moka o namespace k u ttl r).1 ≡ some v
      → k' ≢ k
      → l2_holds o k' r ≡ some v
  unfolding l2_set redis_set
  l2_set_other none k k' u v ttl r laws h ne = h
  l2_set_other (some s) k k' u v ttl r laws h ne =
      laws.set_other (prefixed_key s namespace k) (prefixed_key s namespace k') u v _ r h
        (λ e. ne (prefixed_key-injective s namespace k' k e))

  pub l2_set_same :
      (o : Option (Redis R)) (k : String) (u v : Bytes) (ttl : ℕ) (r : R)
      → RemoteLaws o
      → l2_holds o k (l2_set moka o namespace k u ttl r).1 ≡ some v
      → (v ≡ u) ⊎ (l2_holds o k r ≡ some v)
  unfolding l2_set redis_set
  l2_set_same none k u v ttl r laws h = inr h
  l2_set_same (some s) k u v ttl r laws h = laws.set_same (prefixed_key s namespace k) u v _ r h

  pub l2_set_done :
      (o : Option (Redis R)) (k : String) (u v : Bytes) (ttl : ℕ) (r : R)
      → RemoteLaws o
      → (l2_set moka o namespace k u ttl r).0 ≡ good tt
      → l2_holds o k (l2_set moka o namespace k u ttl r).1 ≡ some v
      → v ≡ u
  unfolding l2_set redis_set
  l2_set_done none k u v ttl r laws done h = ground arith
  l2_set_done (some s) k u v ttl r laws done h =
      laws.set_done (prefixed_key s namespace k) u v _ r done h

  pub l2_delete_keeps :
      (o : Option (Redis R)) (k k' : String) (v : Bytes) (r : R)
      → RemoteLaws o
      → l2_holds o k' (l2_delete moka o namespace k r).1 ≡ some v
      → l2_holds o k' r ≡ some v
  unfolding l2_delete redis_delete
  l2_delete_keeps none k k' v r laws h = h
  l2_delete_keeps (some s) k k' v r laws h =
      laws.del_keeps (prefixed_key s namespace k) (prefixed_key s namespace k') v r h

  pub l2_delete_done :
      (o : Option (Redis R)) (k : String) (b : Bool) (r : R)
      → RemoteLaws o
      → (l2_delete moka o namespace k r).0 ≡ good b
      → l2_holds o k (l2_delete moka o namespace k r).1 ≡ none
  unfolding l2_delete redis_delete
  l2_delete_done none k b r laws done = refl
  l2_delete_done (some s) k b r laws done = answered (s.del (prefixed_key s namespace k) r).0 refl
    where
      answered :
          (a : Answer ℕ)
          → (s.del (prefixed_key s namespace k) r).0 ≡ a
          → s.holds (prefixed_key s namespace k) (s.del (prefixed_key s namespace k) r).1 ≡ none
      answered (good n) e = laws.del_done (prefixed_key s namespace k) n r e
      answered (bad x) e = ground arith

  pub l2_invalidate_keeps :
      (o : Option (Redis R)) (k k' : String) (v : Bytes) (r : R)
      → RemoteLaws o
      → l2_holds o k' (l2_invalidate moka o namespace k r).1 ≡ some v
      → l2_holds o k' r ≡ some v
  unfolding l2_invalidate redis_invalidate
  l2_invalidate_keeps none k k' v r laws h = h
  l2_invalidate_keeps (some s) k k' v r laws h =
      laws.publish_keeps (prefixed_key s namespace k') _ k v r h
