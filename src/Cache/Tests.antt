-- ===== src/Cache/Tests.antt =====
-- Tests of crates/infra/src/cache/layer.rs, and its theorems, at tiers that are association lists.
use kokkeak_api.Cache.{
  LayeredCache, get, set, get_or_load, fill, fly, l2_get, l2_set, redis_get, redis_set,
  prefixed_key, effective_ttl,
}
use kokkeak_api.Cache.Types.{Moka, Redis, MokaLaws, RedisLaws, Bytes, good}
use kokkeak_api.Cache.Refinement.{Op, write, read, load, run, track, run_refines, step}
use kokkeak_api.Cache.Coherence.{Coherent}
use kokkeak_api.Dict.{Dict, lookup, insert, erase, lookup-insert, lookup-erase}
use kokkeak_api.Prelude.{
  refl, ◌≡◌, some, [], ◌∷◌, arith, eq_iff, eq_refl, false, inl, String, List, true,
}

abbrev memory : Moka (Dict Bytes)
memory = record { get = λ k d. (lookup k d, d); insert = insert; invalidate = erase; peek = lookup }

abbrev server : Redis (Dict Bytes)
server = record {
  get = λ k d. (good (lookup k d), d);
  set_ex = λ k v secs d. (good tt, insert k v d);
  del = λ k d. (good 1, erase k d);
  publish = λ c p d. (good 1, d);
  holds = lookup;
}

memory_laws : MokaLaws memory
memory_laws = record {
  get_sound = λ k v w h. h;
  get_keeps = λ k k' v w h. h;
  insert_other = λ k k' u v w h ne. ground (arith, lookup-insert k k' u w, eq_iff k k');
  insert_same = λ k u v w h. ground (arith, lookup-insert k k u w, eq_refl k);
  invalidate_keeps = λ k k' v w h. ground (arith, lookup-erase k k' w);
  invalidate_gone = λ k w. ground (arith, lookup-erase k k w, eq_refl k);
}

server_laws : RedisLaws server
server_laws = record {
  get_sound = λ k v w h. ground arith;
  get_none = λ k w h. ground arith;
  get_keeps = λ k k' v w h. h;
  set_other = λ k k' u v secs w h ne. ground (arith, lookup-insert k k' u w, eq_iff k k');
  set_same = λ k u v secs w h. inl (ground (arith, lookup-insert k k u w, eq_refl k));
  set_done = λ k u v secs w d h. ground (arith, lookup-insert k k u w, eq_refl k);
  del_keeps = λ k k' v w h. ground (arith, lookup-erase k k' w);
  del_done = λ k n w h. ground (arith, lookup-erase k k w, eq_refl k);
  publish_keeps = λ k c p v w h. h;
}

abbrev empty : LayeredCache (Dict Bytes) (Dict Bytes)
empty = record { l1 = []; l2 = []; inflight = [] }

abbrev Nothing : String → Bytes → Type 0
Nothing k v = ⊥

empty-Coherent : Coherent memory (some server) "ns" Nothing empty
unfolding lookup
empty-Coherent = record { l1_ok = λ k v h. ground arith; l2_ok = λ k v h. ground arith }

abbrev calls : List Op
calls = write "a" (1 ∷ []) 60 ∷ read "a" ∷ load "b" 60 true (2 ∷ [], false) ∷ []

found :
    (get memory (some server) "ns" "b" (run memory (some server) "ns" calls empty)).0
    ≡ good (some (2 ∷ []))
unfolding run step get set fill fly get_or_load l2_get l2_set redis_get redis_set prefixed_key
    lookup insert erase effective_ttl
found = refl

run_refines_example : track memory (some server) "ns" calls empty Nothing "b" (2 ∷ [])
run_refines_example =
    run_refines memory (some server) "ns" memory_laws server_laws calls empty Nothing "b" (2 ∷ [])
      empty-Coherent found
