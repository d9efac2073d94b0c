-- ===== src/Config/Databases/Fallback.antt =====
-- How the settings of a role fall back on the main database's.
use kokkeak_api.Prelude.{refl, ◌≡◌, if◌then◌else◌, not, arith, ◌∙◌, sym}
use kokkeak_api.Config.Databases.{
  from_settings, for_role, merge_with_fallback, inherited, default_db_pool_size,
}
use kokkeak_api.Config.{
  Settings, DbRole, slot, master, catalog, order, payment, log, report, temp, DatabaseSettings,
  is_blank,
}

slot-from_settings :
    (s : Settings) (r : DbRole)
    → slot (from_settings s) r ≡ merge_with_fallback (slot s.database_topology r) s.database
unfolding from_settings slot
slot-from_settings s master = refl
slot-from_settings s catalog = refl
slot-from_settings s order = refl
slot-from_settings s payment = refl
slot-from_settings s log = refl
slot-from_settings s report = refl
slot-from_settings s temp = refl

-- What the look-up makes of a slot and a catch-all.
abbrev resolved : DatabaseSettings → DatabaseSettings → DatabaseSettings
resolved role catch_all =
    if not (is_blank role.sqlserver_url)
    then role
    else if not (is_blank catch_all.sqlserver_url)
    then inherited role catch_all
    else role

resolved_merged :
    (role main : DatabaseSettings)
    → resolved (merge_with_fallback role main) main ≡ merge_with_fallback role main
unfolding merge_with_fallback
resolved_merged role main = ground arith

-- The two ways to fall back agree: in the topology made of the settings, the look-up of a role gives
-- the role's own settings merged with the main database's, whatever is set.
pub for_role-from_settings :
    (s : Settings) (r : DbRole)
    → for_role (from_settings s) r ≡ merge_with_fallback (slot s.database_topology r) s.database
unfolding for_role from_settings
for_role-from_settings s r =
    rw (slot-from_settings s r) (resolved_merged (slot s.database_topology r) s.database)

-- So the look-up and the slot agree.
pub for_role-slot :
    (s : Settings) (r : DbRole) → for_role (from_settings s) r ≡ slot (from_settings s) r
for_role-slot s r = for_role-from_settings s r ∙ sym (slot-from_settings s r)

-- Where a role falls back: it has an address exactly where it or the main database has one that is
-- not blank, and its own address counts first.
pub for_role_address :
    (s : Settings) (r : DbRole)
    → (for_role (from_settings s) r).sqlserver_url ≡ (
        if is_blank (slot s.database_topology r).sqlserver_url
        then s.database.sqlserver_url
        else (slot s.database_topology r).sqlserver_url)
unfolding merge_with_fallback
for_role_address s r = rw (for_role-from_settings s r) refl

-- A role cannot be given the default number of connections where the main database has another one:
-- the role's 20 is taken for a number that was not set.
pub default_pool_lost :
    (s : Settings) (r : DbRole)
    → (slot s.database_topology r).pool_size ≡ default_db_pool_size
    → (for_role (from_settings s) r).pool_size ≡ s.database.pool_size
unfolding merge_with_fallback
default_pool_lost s r h = rw (for_role-from_settings s r) (ground arith)
