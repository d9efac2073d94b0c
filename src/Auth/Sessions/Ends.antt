-- ===== src/Auth/Sessions/Ends.antt =====
-- The loops of crates/infra/src/auth/session_store.rs end.
use kokkeak_api.Effect.{Outcome, good, bad, Outcome-cases}
use kokkeak_api.Loop.{scan_loop-ends}
use kokkeak_api.Auth.Types.{Result, ok, err, SessionInfo}
use kokkeak_api.Auth.Sessions.{
  RedisSessionStore, revoke_round, revoke_all, list_round, list, session_pattern, del_keys,
  sessions_of, backend_of,
}
use kokkeak_api.Prelude.{ℕ, String, refl, some, inl, inr, [], List, ◌≡◌, ◌⊎◌, ◌<◌, arith}

module _ {R V : Type 0} (store : RedisSessionStore R V) (rank : ℕ → ℕ)
    (falls : (c : ℕ) (pattern : String) (r : R) (next : ℕ) (keys : List String)
      → store.redis.scan c pattern r ≡ good (next, keys)
      → (next ≡ 0) ⊎ (rank next < rank c)) where
  revoke_round-falls :
      (pattern : String) (c : ℕ) (v : ℕ × R) (next : ℕ) (v' : ℕ × R)
      → revoke_round store pattern c v ≡ inr (next, v')
      → rank next < rank c
  unfolding revoke_round
  revoke_round-falls pattern c (deleted, r) next v' h = by_scan (store.redis.scan c pattern r) refl
    where
      by_del :
          (n : ℕ) (keys : List String)
          → store.redis.scan c pattern r ≡ good (n, keys)
          → (o : Outcome String ℕ) → (del_keys store keys r).0 ≡ o
          → rank next < rank c
      by_del n keys k (bad e) l = ground arith
      by_del n keys k (good m) l = elim (falls c pattern r n keys k) [
        | inl last ↦ ground arith
        | inr lower ↦ ground arith
      ]

      by_scan :
          (o : Outcome String (ℕ × List String))
          → store.redis.scan c pattern r ≡ o
          → rank next < rank c
      by_scan (bad e) k = ground arith
      by_scan (good (n, keys)) k = by_del n keys k (del_keys store keys r).0 refl

  list_round-falls :
      (user_id : ℕ) (r : R) (c : ℕ) (v : List SessionInfo) (next : ℕ) (v' : List SessionInfo)
      → list_round store user_id r c v ≡ inr (next, v')
      → rank next < rank c
  unfolding list_round
  list_round-falls user_id r c v next v' h =
      by_scan (store.redis.scan c (session_pattern store user_id) r) refl
    where
      by_keys :
          (n : ℕ) (keys : List String)
          → store.redis.scan c (session_pattern store user_id) r ≡ good (n, keys)
          → (o : Result (List SessionInfo)) → sessions_of store user_id keys r ≡ o
          → rank next < rank c
      by_keys n keys k (err e) l = ground arith
      by_keys n keys k (ok more) l = elim (falls c (session_pattern store user_id) r n keys k) [
        | inl last ↦ ground arith
        | inr lower ↦ ground arith
      ]

      by_scan :
          (o : Outcome String (ℕ × List String))
          → store.redis.scan c (session_pattern store user_id) r ≡ o
          → rank next < rank c
      by_scan (bad e) k = ground arith
      by_scan (good (n, keys)) k = by_keys n keys k (sessions_of store user_id keys r) refl

  -- The loops over a user's sessions end: when the server gives cursors that lead to 0, that is when
  -- each but 0 ranks below the one before it, revoking and listing the sessions come to an end with a
  -- result within one round more than the rank of the first cursor.
  pub sessions_loops-end :
      (user_id fuel : ℕ) (r : R)
      → rank 0 < fuel
      → ((o : Result ℕ × R) × (revoke_all store fuel user_id r ≡ some o))
        × ((o : Result (List SessionInfo)) × (list store fuel user_id r ≡ some o))
  unfolding revoke_all list
  sessions_loops-end user_id fuel r enough =
      let (a, ends_a) =
        scan_loop-ends (revoke_round store (session_pattern store user_id)) rank fuel 0 (0, r)
          (revoke_round-falls (session_pattern store user_id)) enough in
      let (b, ends_b) =
        scan_loop-ends (list_round store user_id r) rank fuel 0 [] (list_round-falls user_id r)
          enough in
      elim (Outcome-cases (store.acquire r)) [
        | inl (u, k) ↦ ((a, ground arith), (b, ground arith))
        | inr (e, k) ↦ (
          ((backend_of store "redis pool: " e, r), ground arith),
          (backend_of store "redis pool: " e, ground arith),
        )
      ]
