-- ===== src/Permission/Checker.antt =====
-- Who holds a permission: crates/infra/src/permission_checker.rs over the cache of
-- crates/infra/src/cache/permission_cache.rs. The Redis server and the database are parameters, over
-- their states `R` and `M`; `uuid_text` is the text of a UUID. The loop of `invalidate_user`, which
-- ends when the server says so, runs on fuel.
pub mod Laws
mod Tests
use Prim.Native.String
use kokkeak_api.Effect.{Outcome, good, bad}
use kokkeak_api.Permission.{Permission, code}
use kokkeak_api.Prelude.{
  ℕ, zero, suc, none, some, true, false, [], if◌then◌else◌, ◌∷◌, List, Option, Bool, String, str_eq,
  ◌+◌, ◌==◌,
}

-- `GET`, `SET … EX`, `SCAN … MATCH … COUNT 100` and `DEL`.
pub record PermissionRedis (R : Type 0) : Type 0 where
  pub get : String → R → Outcome String (Option String)
  pub set_ex : String → String → ℕ → R → Outcome String (Unit {0}) × R
  pub scan : ℕ → String → R → Outcome String (ℕ × List String)
  pub del : List String → R → Outcome String ℕ × R

pub record RedisPermissionCache (R : Type 0) : Type 0 where
  pub pool : Option (PermissionRedis R)
  pub ttl_secs : ℕ
  pub namespace : String
  pub uuid_text : ℕ → String

module _ {R : Type 0} (cache : RedisPermissionCache R) where
  abbrev pub key_for : String → String → String
  key_for user code =
      String.◌++◌ cache.namespace (String.◌++◌ ":perm:" (String.◌++◌ user (String.◌++◌ ":" code)))

  pub permission_key : ℕ → Permission → String
  permission_key user_guid p = key_for (cache.uuid_text user_guid) (code p)

  pub pattern_for_user : ℕ → String
  pattern_for_user user_guid = key_for (cache.uuid_text user_guid) "*"

  abbrev is_one : Outcome String (Option String) → Outcome String (Option Bool)
  is_one (bad e) = bad e
  is_one (good none) = good none
  is_one (good (some s)) = good (some (str_eq s "1"))

  pub cached : ℕ → Permission → R → Outcome String (Option Bool)
  cached user_guid p r = elim cache.pool [
    | none ↦ bad "permission cache disabled (no redis pool)"
    | some redis ↦ is_one (redis.get (permission_key user_guid p) r)
  ]

  abbrev one_or_zero : Bool → String
  one_or_zero true = "1"
  one_or_zero false = "0"

  pub remember : ℕ → Permission → Bool → R → Outcome String (Unit {0}) × R
  remember user_guid p value r = elim cache.pool [
    | none ↦ (bad "permission cache disabled (no redis pool)", r)
    | some redis ↦ redis.set_ex (permission_key user_guid p) (one_or_zero value) cache.ttl_secs r
  ]

  -- `DEL` of the keys that a `SCAN` gave, if it gave any.
  pub remove : PermissionRedis R → List String → R → Outcome String ℕ × R
  remove redis [] r = (good 0, r)
  remove redis (k ∷ ks) r = redis.del (k ∷ ks) r

  -- The loop from a cursor on; `none` when the fuel is used up.
  pub scan_from : PermissionRedis R → String → ℕ → ℕ → ℕ → R → Option (Outcome String ℕ × R)
  scan_from redis pattern zero cursor deleted r = none
  scan_from redis pattern (suc fuel) cursor deleted r = elim (redis.scan cursor pattern r) [
    | bad e ↦ some (bad e, r)
    | good (next, keys) ↦
        let (removed, r') = remove redis keys r in
        elim removed [
          | bad e ↦ some (bad e, r')
          | good n ↦
              let rest = scan_from redis pattern fuel next (deleted + n) r' in
              if next == 0 then some (good (deleted + n), r') else rest
        ]
  ]

  pub invalidate_user : ℕ → ℕ → R → Option (Outcome String ℕ × R)
  invalidate_user fuel user_guid r = elim cache.pool [
    | none ↦ some (bad "permission cache disabled (no redis pool)", r)
    | some redis ↦ scan_from redis (pattern_for_user user_guid) fuel 0 0 r
  ]

  module _ {M : Type 0} (in_database : ℕ → Permission → M → Outcome String Bool) where
    abbrev ask : ℕ → Permission → M → R → Outcome String Bool × R
    ask user_guid p m r = elim (in_database user_guid p m) [
      | bad e ↦ (bad e, r)
      | good allowed ↦ (good allowed, (remember user_guid p allowed r).1)
    ]

    -- `PermissionChecker::has_permission`: a cache that fails is passed over.
    pub has_permission : ℕ → Permission → M → R → Outcome String Bool × R
    has_permission user_guid p m r = elim (cached user_guid p r) [
      | good (some v) ↦ (good v, r)
      | good none ↦ ask user_guid p m r
      | bad e ↦ ask user_guid p m r
    ]

    -- `AuthnUser::has_permission`: what cannot be checked is denied.
    pub is_granted : ℕ → Permission → M → R → Bool
    is_granted user_guid p m r = elim (has_permission user_guid p m r).0 [
      | good v ↦ v
      | bad e ↦ false
    ]
