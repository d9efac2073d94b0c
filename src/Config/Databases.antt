-- ===== src/Config/Databases.antt =====
-- Which settings a database role has: `DatabaseTopologySettings` of crates/common/src/config.rs, and
-- its defaults.
pub mod Fallback
mod Tests
use kokkeak_api.Prelude.{ℕ, String, if◌then◌else◌, ◌==◌, str_eq, not}
use kokkeak_api.Config.{
  DatabaseTopologySettings, Settings, DatabaseSettings, slot, DbRole, is_blank, master, catalog,
  order, payment, log, report, temp,
}

abbrev pub default_db_pool_size : ℕ
default_db_pool_size = 20

abbrev pub default_db_connect_timeout_secs : ℕ
default_db_connect_timeout_secs = 5

abbrev pub default_migrations_dir : String
default_migrations_dir = "migrations"

pub default_database : DatabaseSettings
default_database = record {
  sqlserver_url = "";
  pool_size = default_db_pool_size;
  connect_timeout_secs = default_db_connect_timeout_secs;
  migrations_dir = default_migrations_dir;
}

-- A field of a role, where it is not the default.
abbrev pub unless_default : ℕ → ℕ → ℕ → ℕ
unless_default default mine other = if mine == default then other else mine

abbrev pub directory_or : DatabaseSettings → DatabaseSettings → String
directory_or role other =
    if str_eq role.migrations_dir default_migrations_dir
    then other.migrations_dir
    else role.migrations_dir

unfoldable pub merge_with_fallback : DatabaseSettings → DatabaseSettings → DatabaseSettings
merge_with_fallback per_role catch_all = record {
  sqlserver_url =
      if is_blank per_role.sqlserver_url then catch_all.sqlserver_url else per_role.sqlserver_url;
  pool_size = unless_default default_db_pool_size per_role.pool_size catch_all.pool_size;
  connect_timeout_secs =
      unless_default default_db_connect_timeout_secs per_role.connect_timeout_secs
        catch_all.connect_timeout_secs;
  migrations_dir = directory_or per_role catch_all;
}

-- The settings of a role that has no address of its own, from the catch-all.
pub inherited : DatabaseSettings → DatabaseSettings → DatabaseSettings
inherited role catch_all = record {
  sqlserver_url = catch_all.sqlserver_url;
  pool_size = unless_default default_db_pool_size role.pool_size catch_all.pool_size;
  connect_timeout_secs =
      unless_default default_db_connect_timeout_secs role.connect_timeout_secs
        catch_all.connect_timeout_secs;
  migrations_dir = directory_or role catch_all;
}

unfoldable pub for_role : DatabaseTopologySettings → DbRole → DatabaseSettings
for_role t r =
    if not (is_blank (slot t r).sqlserver_url)
    then slot t r
    else if not (is_blank t.catch_all.sqlserver_url)
    then inherited (slot t r) t.catch_all
    else slot t r

-- The loop over the roles writes each slot once, from the role's own settings.
unfoldable pub from_settings : Settings → DatabaseTopologySettings
from_settings s = record {
  catch_all = s.database;
  of_master = merge_with_fallback (slot s.database_topology master) s.database;
  of_catalog = merge_with_fallback (slot s.database_topology catalog) s.database;
  of_order = merge_with_fallback (slot s.database_topology order) s.database;
  of_payment = merge_with_fallback (slot s.database_topology payment) s.database;
  of_log = merge_with_fallback (slot s.database_topology log) s.database;
  of_report = merge_with_fallback (slot s.database_topology report) s.database;
  of_temp = merge_with_fallback (slot s.database_topology temp) s.database;
}
