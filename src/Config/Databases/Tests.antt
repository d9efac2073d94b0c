-- ===== src/Config/Databases/Tests.antt =====
-- Tests of `DatabaseTopologySettings` of crates/common/src/config.rs.
use kokkeak_api.Config.Sample.{sample, db}
use kokkeak_api.Prelude.{refl, false, ◌≡◌}
use kokkeak_api.Config.Databases.{for_role, from_settings, merge_with_fallback}
use kokkeak_api.Config.{development, slot, master, database_is_configured, catalog, payment}
use kokkeak_api.Text.{trim}

catalog_settings : for_role (from_settings (sample development "")) catalog ≡ db "Server=main" 7
unfolding for_role from_settings merge_with_fallback slot trim
catalog_settings = refl

master_settings : for_role (from_settings (sample development "")) master ≡ db "Server=m" 50
unfolding for_role from_settings merge_with_fallback slot trim
master_settings = refl

-- A role can be switched off.
payment_is_off :
    database_is_configured (for_role (from_settings (sample development "")) payment) ≡ false
unfolding for_role from_settings merge_with_fallback slot trim database_is_configured
payment_is_off = refl
