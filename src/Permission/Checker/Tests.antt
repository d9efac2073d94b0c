-- ===== src/Permission/Checker/Tests.antt =====
-- Tests of crates/infra/src/permission_checker.rs, at a server that counts its deletions and scans in
-- three rounds.
use mathlib.Core.Path.{subst}
use mathlib.Core.Option.{some-injective}
use kokkeak_api.Permission.Checker.{
  PermissionRedis, RedisPermissionCache, invalidate_user, scan_from, remove,
}
use kokkeak_api.Permission.Checker.Laws.{invalidate_user-ends}
use kokkeak_api.Permission.{Permission}
use kokkeak_api.Effect.{Outcome, good}
use kokkeak_api.Prelude.{
  ℕ, refl, ◌≡◌, ◌==◌, zero, suc, none, some, [], ◌∷◌, String, ◌+◌, Bool, arith, List, ◌⊎◌, ◌<◌, inl,
  inr, ap, ◌∙◌, sym,
}

abbrev next_cursor : ℕ → ℕ
next_cursor zero = 2
next_cursor (suc zero) = 0
next_cursor (suc (suc n)) = 1

abbrev server : PermissionRedis ℕ
server = record {
  get = λ k r. good none;
  set_ex = λ k v ttl r. (good tt, r);
  scan = λ c pattern r. good (next_cursor c, "k" ∷ []);
  del = λ ks r. (good 1, r + 1);
}

abbrev cache : RedisPermissionCache ℕ
cache = record { pool = some server; ttl_secs = 300; namespace = "kokkeak"; uuid_text = λ n. "u" }

abbrev database : ℕ → Permission → Unit {0} → Outcome String Bool
database user p m = good (user == 7)

abbrev rank : ℕ → ℕ
rank zero = 3
rank (suc n) = n + 1

falls :
    (redis : PermissionRedis ℕ) (c : ℕ) (pattern : String) (r next : ℕ) (keys : List String)
    → cache.pool ≡ some redis
    → redis.scan c pattern r ≡ good (next, keys)
    → (next ≡ 0) ⊎ (rank next < rank c)
falls redis c pattern r next keys is h =
    let same : server ≡ redis = some-injective server redis is in
    let next_is : next ≡ next_cursor c = scanned (ap (λ s. s.scan c pattern r) same ∙ h) in
    subst (λ n. (n ≡ 0) ⊎ (rank n < rank c)) (sym next_is) (lower c)
  where
    scanned :
        ◌≡◌ {A = Outcome String (ℕ × List String)}
          (good (next_cursor c, "k" ∷ []))
          (good (next, keys))
        → next ≡ next_cursor c
    scanned e = ground arith

    lower : (c : ℕ) → (next_cursor c ≡ 0) ⊎ (rank (next_cursor c) < rank c)
    lower zero = inr (omega arith)
    lower (suc zero) = inl refl
    lower (suc (suc n)) = inr (omega arith)

three_rounds : invalidate_user cache 4 7 0 ≡ some (good 3, 3)
unfolding invalidate_user scan_from remove
three_rounds = refl

invalidate_user-ends_example :
    (result : Outcome String ℕ × ℕ) × (invalidate_user cache 4 7 0 ≡ some result)
invalidate_user-ends_example = invalidate_user-ends cache 7 rank 4 0 falls (omega arith)
