-- ===== src/Permission/Checker/Laws.antt =====
-- Properties of crates/infra/src/permission_checker.rs and crates/infra/src/cache/permission_cache.rs.
use kokkeak_api.Permission.Checker.{
  RedisPermissionCache, PermissionRedis, permission_key, pattern_for_user, invalidate_user,
  scan_from, remove,
}
use kokkeak_api.Permission.{Permission}
use kokkeak_api.Effect.{Outcome, good, bad}
use kokkeak_api.Prelude.{
  ◌==◌, ℕ, zero, suc, ◌≡◌, ◌⊎◌, refl, none, some, true, inl, inr, String, List, Bool, ◌<◌, Option,
  arith, false, ◌+◌, Bool-cases,
}

module _ {R M : Type 0} (cache : RedisPermissionCache R)
    (in_database : ℕ → Permission → M → Outcome String Bool) where
  -- Where a permission can come from.
  abbrev pub Granted : ℕ → Permission → M → R → Type 0
  Granted user_guid p m r =
      ((redis : PermissionRedis R) × (cache.pool ≡ some redis)
        × (redis.get (permission_key cache user_guid p) r ≡ good (some "1")))
      ⊎ (in_database user_guid p m ≡ good true)

  abbrev answered : Outcome String Bool → Bool
  answered (good v) = v
  answered (bad e) = false

module _ {R : Type 0} (cache : RedisPermissionCache R) where
  abbrev Ends : PermissionRedis R → String → ℕ → ℕ → ℕ → R → Type 0
  Ends redis pattern fuel cursor deleted r =
      (result : Outcome String ℕ × R) × (scan_from cache redis pattern fuel cursor deleted r
        ≡ some result)

  -- One round, when the rest ends.
  scan_from-Ends_round :
      (redis : PermissionRedis R) (pattern : String) (rank : ℕ → ℕ) (fuel cursor deleted : ℕ)
      (r : R)
      → ((next : ℕ) (keys : List String)
          → redis.scan cursor pattern r ≡ good (next, keys)
          → (next ≡ 0) ⊎ (rank next < rank cursor))
      → rank cursor < suc fuel
      → ((next deleted' : ℕ) (r' : R) → rank next < fuel → Ends redis pattern fuel next deleted' r')
      → Ends redis pattern (suc fuel) cursor deleted r
  unfolding scan_from
  scan_from-Ends_round redis pattern rank fuel cursor deleted r falls enough rest =
      by_scan (redis.scan cursor pattern r) refl
    where
      onward :
          (next : ℕ) (keys : List String)
          → redis.scan cursor pattern r ≡ good (next, keys)
          → (n : ℕ) → (remove cache redis keys r).0 ≡ good n
          → ((next == 0) ≡ true) ⊎ ((next == 0) ≡ false)
          → rank next < fuel
          → (result : Outcome String ℕ × R) × (scan_from cache redis pattern
                (suc fuel)
                cursor
                deleted
                r
              ≡ some result)
      onward next keys asked n k (inl done) enough' =
          ((good (deleted + n), (remove cache redis keys r).1), ground arith)
      onward next keys asked n k (inr more) enough' =
          let (result, ends) = rest next (deleted + n) (remove cache redis keys r).1 enough' in
          (result, ground arith)

      removed :
          (next : ℕ) (keys : List String)
          → redis.scan cursor pattern r ≡ good (next, keys)
          → (a : Outcome String ℕ) → (remove cache redis keys r).0 ≡ a
          → (result : Outcome String ℕ × R) × (scan_from cache redis pattern
                (suc fuel)
                cursor
                deleted
                r
              ≡ some result)
      removed next keys asked (bad e) k = ((bad e, (remove cache redis keys r).1), ground arith)
      removed next keys asked (good n) k = elim (falls next keys asked) [
        | inl done ↦ ((good (deleted + n), (remove cache redis keys r).1), ground arith)
        | inr lower ↦ onward next keys asked n k (Bool-cases (next == 0)) (omega arith)
      ]

      by_scan :
          (a : Outcome String (ℕ × List String))
          → redis.scan cursor pattern r ≡ a
          → (result : Outcome String ℕ × R) × (scan_from cache redis pattern
                (suc fuel)
                cursor
                deleted
                r
              ≡ some result)
      by_scan (bad e) asked = ((bad e, r), ground arith)
      by_scan (good (next, keys)) asked = removed next keys asked (remove cache redis keys r).0 refl

  scan_from-Ends :
      (redis : PermissionRedis R) (pattern : String) (rank : ℕ → ℕ) (fuel cursor deleted : ℕ)
      (r : R)
      → ((c : ℕ) (r' : R) (next : ℕ) (keys : List String)
          → redis.scan c pattern r' ≡ good (next, keys)
          → (next ≡ 0) ⊎ (rank next < rank c))
      → rank cursor < fuel
      → Ends redis pattern fuel cursor deleted r
  scan_from-Ends redis pattern rank zero cursor deleted r falls enough = ground arith
  scan_from-Ends redis pattern rank (suc fuel) cursor deleted r falls enough =
      scan_from-Ends_round redis pattern rank fuel cursor deleted r (falls cursor r) enough
        (λ next deleted' r' lower.
          scan_from-Ends redis pattern rank fuel next deleted' r' falls lower)

  -- The invalidation of a user's permissions ends. When no cursor that the server gives leads on
  -- forever, that is when each but 0 ranks below the one before it, the loop comes to an end with a
  -- result within one round more than the rank of the first cursor.
  pub invalidate_user-ends :
      (user_guid : ℕ) (rank : ℕ → ℕ) (fuel : ℕ) (r : R)
      → ((redis : PermissionRedis R) (c : ℕ) (pattern : String) (r' : R) (next : ℕ)
            (keys : List String)
          → cache.pool ≡ some redis
          → redis.scan c pattern r' ≡ good (next, keys)
          → (next ≡ 0) ⊎ (rank next < rank c))
      → rank 0 < fuel
      → (result : Outcome String ℕ × R) × (invalidate_user cache fuel user_guid r ≡ some result)
  unfolding invalidate_user
  invalidate_user-ends user_guid rank fuel r falls enough = by_pool cache.pool refl
    where
      by_pool :
          (o : Option (PermissionRedis R))
          → cache.pool ≡ o
          → (result : Outcome String ℕ × R) × (invalidate_user cache fuel user_guid r ≡ some result)
      by_pool none k = ((bad "permission cache disabled (no redis pool)", r), ground arith)
      by_pool (some redis) k =
          let (result, ends) =
            scan_from-Ends redis (pattern_for_user cache user_guid) rank fuel 0 0 r
              (λ c r' next keys asked. falls redis c _ r' next keys k asked) enough in
          (result, ground arith)
