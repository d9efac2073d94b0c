-- ===== src/Database/Topology.antt =====
-- `DatabaseTopology` of crates/infra/src/db/topology.rs: a pool for each configured role. The pools are
-- an association list in the place of the `HashMap`; a call that panics gives `none`.
pub mod Roles
pub mod Opens
pub mod Owns
use kokkeak_api.Config.{
  DbRole, master, catalog, order, payment, log, report, temp, all_roles, DatabaseTopologySettings,
  database_is_configured,
}
use kokkeak_api.Config.Databases.{for_role}
use kokkeak_api.Prelude.{
  ℕ, none, some, true, false, [], if◌then◌else◌, ◌∷◌, Option, Bool, List, ◌==◌,
}
use kokkeak_api.Database.Connect.{MssqlError, Driver, build_pool, ping}
use kokkeak_api.Effect.{Outcome, good, bad}

pub data TopologyError : Type 0 where
  role_build role_unhealthy : DbRole → MssqlError → TopologyError
  require_all_but_unset : TopologyError

pub role_number : DbRole → ℕ
role_number master = 0
role_number catalog = 1
role_number order = 2
role_number payment = 3
role_number log = 4
role_number report = 5
role_number temp = 6

pub same_role : DbRole → DbRole → Bool
same_role q r = role_number q == role_number r

pub record DatabaseTopology (P : Type 0) : Type 0 where
  pub pools : List (DbRole × P)
  pub primary_role : Option DbRole

abbrev pub or_else {ℓ} : {A : Type ℓ} → Option A → A → Option A
or_else none a = some a
or_else (some b) a = some b

abbrev pub is_some {ℓ} : {A : Type ℓ} → Option A → Bool
is_some none = false
is_some (some a) = true

module _ {P : Type 0} where
  unfoldable pub pool_of : DbRole → List (DbRole × P) → Option P
  pool_of r [] = none
  pool_of r ((q, p) ∷ ps) = if same_role q r then some p else pool_of r ps

  pub put : DbRole → P → List (DbRole × P) → List (DbRole × P)
  put r p [] = (r, p) ∷ []
  put r p ((q, o) ∷ ps) = if same_role q r then (r, p) ∷ ps else (q, o) ∷ put r p ps

  abbrev pub no_pools : List (DbRole × P) → Bool
  no_pools [] = true
  no_pools (x ∷ xs) = false

  unfoldable pub try_get : DatabaseTopology P → DbRole → Option P
  try_get t r = pool_of r t.pools

  pub live_from : DatabaseTopology P → List DbRole → List DbRole
  live_from t [] = []
  live_from t (r ∷ rs) =
      let rest = live_from t rs in if is_some (pool_of r t.pools) then r ∷ rest else rest

  pub live_roles : DatabaseTopology P → List DbRole
  live_roles t = live_from t all_roles

  pub empty_topology : DatabaseTopology P
  empty_topology = record { pools = []; primary_role = none }

  abbrev pub with_role : DbRole → P → DatabaseTopology P → DatabaseTopology P
  with_role r p t = record { pools = put r p t.pools; primary_role = or_else t.primary_role r }

module _ {C P D : Type 0} (driver : Driver C P D) (settings : DatabaseTopologySettings) where
  abbrev answers : DbRole → P → D → Outcome TopologyError P × D
  answers r p d =
      let (answer, d') = ping driver p d in
      elim answer [ bad e ↦ (bad (role_unhealthy r e), d') | good u ↦ (good p, d') ]

  -- A pool for one role, that answers.
  abbrev pub open_role : DbRole → D → Outcome TopologyError P × D
  open_role r d =
      let (pool, d') = build_pool driver (for_role settings r) d in
      elim pool [ bad e ↦ (bad (role_build r e), d') | good p ↦ answers r p d' ]

  pub build_from :
      List DbRole → DatabaseTopology P → D → Outcome TopologyError (DatabaseTopology P) × D
  build_from [] t d = (good t, d)
  build_from (r ∷ rs) t d = elim (database_is_configured (for_role settings r)) [
    | false ↦ build_from rs t d
    | true ↦
        let (opened, d') = open_role r d in
        elim opened [ bad e ↦ (bad e, d') | good p ↦ build_from rs (with_role r p t) d' ]
  ]

  abbrev pub required : Bool → DatabaseTopology P → Outcome TopologyError (DatabaseTopology P)
  required require_all t =
      if no_pools t.pools
      then (if require_all
          then bad require_all_but_unset
          else good (record { pools = t.pools; primary_role = none }))
      else good t

  pub build : Bool → D → Outcome TopologyError (DatabaseTopology P) × D
  build require_all d =
      let (built, d') = build_from all_roles empty_topology d in
      elim built [ bad e ↦ (bad e, d') | good t ↦ (required require_all t, d') ]
