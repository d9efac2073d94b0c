-- ===== src/Cache/Flights.antt =====
-- What a flight leaves that finds its table locked: `get_or_load` of crates/infra/src/cache/layer.rs.
use kokkeak_api.Cache.Types.{Bytes, Answer, good, bad, Moka, Redis}
use kokkeak_api.Cache.{LayeredCache, get, delete, fill, fly, get_or_load, l2_get}
use kokkeak_api.Dict.{lookup, lookup-insert, Dict}
use kokkeak_api.Prelude.{
  ℕ, String, Option, Bool, none, some, true, false, ◌≡◌, arith, eq_refl, refl, ap, ◌∙◌,
}

module _ {M R : Type 0} (moka : Moka M) (redis : Option (Redis R)) (namespace : String) where
  fill-inflight :
      (k : String) (l1 : M) (l2 : R) (flights : Dict (Option Bytes)) (p : Answer (Option Bytes) × R)
      → (fill moka redis namespace k l1 l2 flights p).1.inflight ≡ flights
  unfolding fill
  fill-inflight k l1 l2 flights (good none, r) = refl
  fill-inflight k l1 l2 flights (good (some v), r) = refl
  fill-inflight k l1 l2 flights (bad e, r) = refl

  get-inflight :
      (k : String) (c : LayeredCache M R) → (get moka redis namespace k c).1.inflight ≡ c.inflight
  unfolding get
  get-inflight k c = ground (
    arith,
    fill-inflight k (moka.get k c.l1).1 c.l2 c.inflight (l2_get moka redis namespace k c.l2),
  )

  load_flies :
      (k : String) (ttl : ℕ) (locked : Bool) (loader : Bytes × Bool) (c : LayeredCache M R)
      → (get moka redis namespace k c).0 ≡ good none
      → let c' = (get moka redis namespace k c).1 in
        get_or_load moka redis namespace k ttl locked loader c
        ≡ fly moka redis namespace k ttl locked loader (lookup k c'.inflight) c'
  unfolding get_or_load
  load_flies k ttl locked loader c h = ground arith

  -- A load that has run its loader has missed.
  ran_missed :
      (k : String) (ttl : ℕ) (locked : Bool) (loader : Bytes × Bool) (c : LayeredCache M R)
      → (get_or_load moka redis namespace k ttl locked loader c).0.ran ≡ true
      → (get moka redis namespace k c).0 ≡ good none
  unfolding get_or_load
  ran_missed k ttl locked loader c ran = answered (get moka redis namespace k c).0 refl
    where
      answered :
          (a : Answer (Option Bytes))
          → (get moka redis namespace k c).0 ≡ a
          → (get moka redis namespace k c).0 ≡ good none
      answered (good none) e = e
      answered (good (some v)) e = ground arith
      answered (bad x) e = ground arith

  fly_left :
      (k : String) (ttl : ℕ) (loader : Bytes × Bool) (o : Option (Option Bytes))
      (c : LayeredCache M R)
      → (fly moka redis namespace k ttl true loader o c).0.ran ≡ true
      → lookup k (fly moka redis namespace k ttl true loader o c).1.inflight ≡ some (some loader.0)
  unfolding fly
  fly_left k ttl loader none c h =
      ground (arith, lookup-insert k k (some loader.0) c.inflight, eq_refl k)
  fly_left k ttl loader (some none) c h =
      ground (arith, lookup-insert k k (some loader.0) c.inflight, eq_refl k)
  fly_left k ttl loader (some (some v)) c h = ground arith

  fly_joined :
      (k : String) (ttl : ℕ) (locked : Bool) (loader : Bytes × Bool) (v : Bytes)
      (o : Option (Option Bytes)) (c : LayeredCache M R)
      → o ≡ some (some v)
      → fly moka redis namespace k ttl locked loader o c
        ≡ (record { answer = good v; ran = false }, c)
  unfolding fly
  fly_joined k ttl locked loader v o c h = rw h

  -- A load that finds the table of the flights locked when it has finished leaves its flight there.
  -- After the key is deleted, when a lookup finds nothing, a load of the key returns the value of
  -- before the deletion and does not run its loader; the flight is still there after it.
  pub stale_load :
      (k : String) (ttl ttl' : ℕ) (locked : Bool) (loader loader' : Bytes × Bool)
      (c : LayeredCache M R)
      → (get_or_load moka redis namespace k ttl true loader c).0.ran ≡ true
      → let deleted =
          (delete moka redis namespace k
            (get_or_load moka redis namespace k ttl true loader c).1).1 in
        (get moka redis namespace k deleted).0 ≡ good none
        → (get_or_load moka redis namespace k ttl' locked loader' deleted ≡ (
          record { answer = good loader.0; ran = false },
          (get moka redis namespace k deleted).1,
        ))
          × (lookup k (get_or_load moka redis namespace k ttl' locked loader' deleted).1.inflight
              ≡ some (some loader.0))
  unfolding delete
  stale_load k ttl ttl' locked loader loader' c ran missed =
      let deleted =
        (delete moka redis namespace k
          (get_or_load moka redis namespace k ttl true loader c).1).1 in
      let c1 = (get moka redis namespace k c).1 in
      let flew = load_flies k ttl true loader c (ran_missed k ttl true loader c ran) in
      let left : lookup k deleted.inflight ≡ some (some loader.0) =
        ap (λ w. lookup k w.1.inflight) flew
        ∙ fly_left k ttl loader (lookup k c1.inflight) c1 (rw flew at ran) in
      let kept : lookup k (get moka redis namespace k deleted).1.inflight ≡ some (some loader.0) =
        ap (lookup k) (get-inflight k deleted) ∙ left in
      let stale =
        load_flies k ttl' locked loader' deleted missed
        ∙ fly_joined k ttl' locked loader' loader.0 _ (get moka redis namespace k deleted).1 kept in
      (stale, ap (λ w. lookup k w.1.inflight) stale ∙ kept)
