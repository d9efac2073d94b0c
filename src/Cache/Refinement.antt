-- ===== src/Cache/Refinement.antt =====
-- The layered cache refines a map of the values that may be read: crates/infra/src/cache/layer.rs.
use mathlib.Core.Path.{subst}
use kokkeak_api.Cache.Types.{Bytes, CacheError, Answer, good, bad, Moka, Redis, MokaLaws}
use kokkeak_api.Cache.{
  LayeredCache, Loaded, get, set, delete, invalidate, heard, fly, get_or_load, l2_set,
  effective_ttl,
}
use kokkeak_api.Cache.Remote.{l2_holds, RemoteLaws, l2_set_same, l2_set_other}
use kokkeak_api.Cache.Coherence.{
  May, put_may, add_may, drop_may, Coherent, IsGot, get-IsGot, set-Coherent, delete-Coherent,
  invalidate-Coherent, heard-Coherent, insert_may, key_cases, none-some,
}
use kokkeak_api.Dict.{Dict, lookup, erase, insert}
use kokkeak_api.Prelude.{
  ℕ, String, Option, none, some, ◌≡◌, arith, true, false, [], if◌then◌else◌, ◌∷◌, List, Bool, refl,
  inl, inr, ◌∙◌, sym, ◌⊎◌,
}

-- A call on the cache, or an invalidation that it hears. A load says whether it finds the table of the
-- flights locked when it is done.
pub data Op : Type 0 where
  read delete_key invalidate_key hear : String → Op
  write : String → Bytes → ℕ → Op
  load : String → ℕ → Bool → Bytes × Bool → Op

module _ {M R : Type 0} (moka : Moka M) (redis : Option (Redis R)) (namespace : String) where
  unfoldable pub step : Op → LayeredCache M R → LayeredCache M R
  step (read k) c = (get moka redis namespace k c).1
  step (delete_key k) c = (delete moka redis namespace k c).1
  step (invalidate_key k) c = (invalidate moka redis namespace k c).1
  step (hear k) c = heard moka redis namespace k c
  step (write k u ttl) c = (set moka redis namespace k u ttl c).1
  step (load k ttl locked loader) c = (get_or_load moka redis namespace k ttl locked loader c).1

  -- What a call makes of the values that may be read. A write or a load makes its value the only
  -- one of its key, a write that fails adds its value, a deletion leaves none unless it fails.
  pub note : Op → LayeredCache M R → May → May
  note (read k) c may = may
  note (delete_key k) c may = elim (delete moka redis namespace k c).0 [
    | good b ↦ drop_may k may
    | bad e ↦ may
  ]
  note (invalidate_key k) c may = may
  note (hear k) c may = may
  note (write k u ttl) c may = elim (set moka redis namespace k u ttl c).0 [
    | good x ↦ put_may k u may
    | bad e ↦ add_may k u may
  ]
  note (load k ttl locked loader) c may =
      if (get_or_load moka redis namespace k ttl locked loader c).0.ran
      then put_may k loader.0 may
      else may

  unfoldable pub run : List Op → LayeredCache M R → LayeredCache M R
  unfolding step
  run [] c = c
  run (op ∷ ops) c = run ops (step op c)

  pub track : List Op → LayeredCache M R → May → May
  unfolding step note
  track [] c may = may
  track (op ∷ ops) c may = track ops (step op c) (note op c may)

  -- The tiers and the table of the flights after a load that has run its loader.
  abbrev loaded :
      String → ℕ → Bytes × Bool → LayeredCache M R → Dict (Option Bytes) → LayeredCache M R
  loaded k ttl loader c flights = record {
    l1 = moka.insert k loader.0 c.l1;
    l2 = (l2_set moka redis namespace k loader.0 (effective_ttl loader.1 ttl) c.l2).1;
    inflight = flights;
  }

  -- A flight that is there answers and changes nothing; any other load runs its loader.
  fly_cases :
      (k : String) (ttl : ℕ) (locked : Bool) (loader : Bytes × Bool) (o : Option (Option Bytes))
      (c : LayeredCache M R)
      → ((v : Bytes) × (fly moka redis namespace k ttl locked loader o c
            ≡ (record { answer = good v; ran = false }, c)))
        ⊎ ((flights : Dict (Option Bytes)) × (fly moka redis namespace k ttl locked loader o c
              ≡ (record { answer = good loader.0; ran = true }, loaded k ttl loader c flights)))
  unfolding fly
  fly_cases k ttl locked loader (some (some v)) c = inl (v, refl)
  fly_cases k ttl locked loader (some none) c =
      inr (if locked then insert k (some loader.0) c.inflight else erase k c.inflight, refl)
  fly_cases k ttl locked loader none c =
      inr (if locked then insert k (some loader.0) c.inflight else erase k c.inflight, refl)

  load_hit :
      (k : String) (ttl : ℕ) (locked : Bool) (loader : Bytes × Bool) (v : Bytes)
      (c : LayeredCache M R)
      → (get moka redis namespace k c).0 ≡ good (some v)
      → get_or_load moka redis namespace k ttl locked loader c
        ≡ (record { answer = good v; ran = false }, (get moka redis namespace k c).1)
  unfolding get_or_load
  load_hit k ttl locked loader v c h = ground arith

  load_failed :
      (k : String) (ttl : ℕ) (locked : Bool) (loader : Bytes × Bool) (e : CacheError)
      (c : LayeredCache M R)
      → (get moka redis namespace k c).0 ≡ bad e
      → get_or_load moka redis namespace k ttl locked loader c
        ≡ (record { answer = bad e; ran = false }, (get moka redis namespace k c).1)
  unfolding get_or_load
  load_failed k ttl locked loader e c h = ground arith

  load_flies :
      (k : String) (ttl : ℕ) (locked : Bool) (loader : Bytes × Bool) (c : LayeredCache M R)
      → (get moka redis namespace k c).0 ≡ good none
      → let c' = (get moka redis namespace k c).1 in
        get_or_load moka redis namespace k ttl locked loader c
        ≡ fly moka redis namespace k ttl locked loader (lookup k c'.inflight) c'
  unfolding get_or_load
  load_flies k ttl locked loader c h = ground arith

  module _ (mlaws : MokaLaws moka) (rlaws : RemoteLaws moka namespace redis) where
    -- What a load leaves.
    abbrev IsLoaded : String → Bytes → May → Loaded × LayeredCache M R → Type 0
    IsLoaded k u may r =
        Coherent moka redis namespace (if r.0.ran then put_may k u may else may) r.1

    missed-Coherent :
        (k : String) (ttl : ℕ) (loader : Bytes × Bool) (may : May) (c : LayeredCache M R)
        (flights : Dict (Option Bytes))
        → IsGot moka redis namespace k may (good none) c
        → Coherent moka redis namespace (put_may k loader.0 may) (loaded k ttl loader c flights)
    missed-Coherent k ttl loader may c flights g = record {
      l1_ok = λ k' v p.
          insert_may moka redis namespace mlaws rlaws k k' loader.0 v c.l1 (put_may k loader.0 may)
            (inl (refl, refl)) (λ other q. inr (other, g.coherent.l1_ok k' v q)) p;
      l2_ok = λ k' v p. remote k' v p;
    }
      where
        remote :
            (k' : String) (v : Bytes)
            → l2_holds moka namespace redis k'
                (l2_set moka redis namespace k loader.0 (effective_ttl loader.1 ttl) c.l2).1
              ≡ some v
            → put_may k loader.0 may k' v
        remote k' v p = elim (key_cases k' k) [
          | inl same ↦
              elim (l2_set_same moka namespace redis k loader.0 v _ c.l2 rlaws (rw same at p)) [
                | inl is_u ↦ inl (same, is_u)
                | inr old ↦ absurd (none-some (sym (g.missed refl) ∙ old))
              ]
          | inr other ↦ inr (
            other,
            g.coherent.l2_ok k' v
                (l2_set_other moka namespace redis k k' loader.0 v _ c.l2 rlaws p other),
          )
        ]

    load-IsLoaded :
        (k : String) (ttl : ℕ) (locked : Bool) (loader : Bytes × Bool) (may : May)
        (c : LayeredCache M R)
        → Coherent moka redis namespace may c
        → IsLoaded k loader.0 may (get_or_load moka redis namespace k ttl locked loader c)
    load-IsLoaded k ttl locked loader may c h = looked (get moka redis namespace k c).0 refl
      where
        got :
            IsGot moka redis namespace k may
              (get moka redis namespace k c).0
              (get moka redis namespace k c).1
        got = get-IsGot moka redis namespace mlaws rlaws k may c h

        here : Loaded × LayeredCache M R → Type 0
        here r = IsLoaded k loader.0 may r

        looked :
            (a : Answer (Option Bytes))
            → (get moka redis namespace k c).0 ≡ a
            → IsLoaded k loader.0 may (get_or_load moka redis namespace k ttl locked loader c)
        looked (good (some v)) e =
            subst here (sym (load_hit k ttl locked loader v c e)) got.coherent
        looked (good none) e =
            let c' = (get moka redis namespace k c).1 in
            let flown = load_flies k ttl locked loader c e in
            elim (fly_cases k ttl locked loader (lookup k c'.inflight) c') [
              | inl (v, joined) ↦ subst here (sym (flown ∙ joined)) got.coherent
              | inr (flights, ran) ↦
                  subst here (sym (flown ∙ ran))
                    (missed-Coherent k ttl loader may c' flights (rw e at got))
            ]
        looked (bad x) e = subst here (sym (load_failed k ttl locked loader x c e)) got.coherent

    step-Coherent :
        (op : Op) (c : LayeredCache M R) (may : May)
        → Coherent moka redis namespace may c
        → Coherent moka redis namespace (note op c may) (step op c)
    unfolding step note
    step-Coherent (read k) c may h = (get-IsGot moka redis namespace mlaws rlaws k may c h).coherent
    step-Coherent (delete_key k) c may h =
        delete-Coherent moka redis namespace mlaws rlaws k may c h
    step-Coherent (invalidate_key k) c may h =
        invalidate-Coherent moka redis namespace mlaws rlaws k may c h
    step-Coherent (hear k) c may h = heard-Coherent moka redis namespace mlaws rlaws k may c h
    step-Coherent (write k u ttl) c may h =
        set-Coherent moka redis namespace mlaws rlaws k u ttl may c h
    step-Coherent (load k ttl locked loader) c may h = load-IsLoaded k ttl locked loader may c h

    run-Coherent :
        (ops : List Op) (c : LayeredCache M R) (may : May)
        → Coherent moka redis namespace may c
        → Coherent moka redis namespace (track ops c may) (run ops c)
    unfolding run track
    run-Coherent [] c may h = h
    run-Coherent (op ∷ ops) c may h =
        run-Coherent ops (step op c) (note op c may) (step-Coherent op c may h)

    -- The cache refines a map from keys to the values that may be read, for one instance whose calls come
    -- one after another and whose keys in Redis nobody else writes. From any state whose tiers hold only
    -- values that may be read, whatever flights its table has, through any run of lookups, writes,
    -- loads, deletions, invalidations and heard invalidations, with entries dropped and calls of Redis
    -- failing at any time, and with loads that find the table of the flights locked and leave their
    -- flight there, what a lookup then finds at a key is a value that the map allows. (A load that
    -- joins a flight that was left answers with the flight's value, and changes no tier.)
    pub run_refines :
        (ops : List Op) (c : LayeredCache M R) (may : May) (k : String) (v : Bytes)
        → Coherent moka redis namespace may c
        → (get moka redis namespace k (run ops c)).0 ≡ good (some v)
        → track ops c may k v
    run_refines ops c may k v h found =
        (get-IsGot moka redis namespace mlaws rlaws k (track ops c may) (run ops c)
            (run-Coherent ops c may h)).sound
          v found
