-- ===== src/Database/Bundle.antt =====
-- Which pool each repository works on: crates/api/src/repo_factory.rs. A repository is its pool;
-- `show_error` stands for the text of an error.
pub mod Homes
pub mod Starts
mod Tests
use kokkeak_api.Config.{
  DbRole, all_roles, DatabaseTopologySettings, database_is_configured, Settings, slot,
}
use kokkeak_api.Config
use kokkeak_api.Config.Databases.{from_settings}
use kokkeak_api.Database.Topology.{
  DatabaseTopology, TopologyError, build, try_get, no_pools, or_else,
}
use kokkeak_api.Database.Connect.{Driver}
use kokkeak_api.Prelude.{
  String, none, some, false, [], if◌then◌else◌, ◌∷◌, Bool, Option, List, ◌||◌,
}
use kokkeak_api.Effect.{Outcome, bad, good}

pub record RepoBundle (P : Type 0) : Type 0 where
  pub users : P
  pub services : P
  pub orders : P
  pub chat : P
  pub payments : P
  pub user_roles : P
  pub permission_users : P
  pub translation : P
  pub master : P
  pub category_job_main : P
  pub category_job_service_main : P
  pub category_job_service_sub : P
  pub category_job_service_sub_fee : P
  pub category_job_service_sub_warranty : P
  pub admin_order_service : P
  pub mssql_pool : Option P
  pub topology : Option (DatabaseTopology P)

-- A start: the bundle, a `FactoryError`, or a panic.
pub data Start (A : Type 0) : Type 0 where
  started : A → Start A
  refused : String → Start A
  panicked : String → Start A

abbrev pub any_configured : DatabaseTopologySettings → List DbRole → Bool
any_configured s [] = false
any_configured s (r ∷ rs) = database_is_configured (slot s r) || any_configured s rs

pub has_any_role_url : DatabaseTopologySettings → Bool
has_any_role_url s = any_configured s all_roles

module _ {P : Type 0} where
  pub topo_pool : DatabaseTopology P → DbRole → P → P
  topo_pool t r fallback = elim (try_get t r) [ some p ↦ p | none ↦ fallback ]

  pub bundle_of : DatabaseTopology P → P → RepoBundle P
  bundle_of t primary_pool = record {
    users = topo_pool t Config.master primary_pool;
    services = topo_pool t Config.catalog primary_pool;
    orders = topo_pool t Config.order primary_pool;
    chat = topo_pool t Config.master primary_pool;
    payments = topo_pool t Config.payment primary_pool;
    user_roles = topo_pool t Config.master primary_pool;
    permission_users = topo_pool t Config.master primary_pool;
    translation = primary_pool;
    master = primary_pool;
    category_job_main = topo_pool t Config.master primary_pool;
    category_job_service_main = topo_pool t Config.master primary_pool;
    category_job_service_sub = topo_pool t Config.master primary_pool;
    category_job_service_sub_fee = topo_pool t Config.master primary_pool;
    category_job_service_sub_warranty = topo_pool t Config.master primary_pool;
    admin_order_service = topo_pool t Config.order primary_pool;
    mssql_pool = some primary_pool;
    topology = some t;
  }

  -- A topology that is not empty: `expect` and `get` panic where there is no primary pool.
  pub on_primary : DatabaseTopology P → Start (RepoBundle P)
  on_primary t = elim t.primary_role [
    | none ↦ panicked "non-empty topology has a primary role"
    | some r ↦ elim (try_get t r) [
      | none ↦ panicked "database topology: role not configured"
      | some p ↦ started (bundle_of t p)
    ]
  ]

  pub with_topology :
      (TopologyError → String) → Outcome TopologyError (DatabaseTopology P) → Start (RepoBundle P)
  with_topology show_error (bad e) = refused (show_error e)
  with_topology show_error (good t) =
      if no_pools t.pools then refused "topology build returned empty pool set" else on_primary t

abbrev unset : String
unset = "M14.5: MSSQL URL not configured. Set KOKKAK_DATABASE__SQLSERVER_URL or per-role URLs."

module _ {C P D : Type 0} (driver : Driver C P D) (show_error : TopologyError → String) where
  -- `require` is whether KOKKAK_REQUIRE_MSSQL is set.
  pub repos_from : Bool → Settings → D → Start (RepoBundle P) × D
  repos_from require settings d =
      let topo_settings = from_settings settings in
      if database_is_configured topo_settings.catch_all || has_any_role_url topo_settings
      then (
        with_topology show_error (build driver topo_settings false d).0,
        (build driver topo_settings false d).1,
      )
      else (if require then (panicked unset, d) else (refused unset, d))
