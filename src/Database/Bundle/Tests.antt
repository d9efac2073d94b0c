-- ===== src/Database/Bundle/Tests.antt =====
-- Tests of crates/infra/src/db/topology.rs and crates/api/src/repo_factory.rs: a driver whose pools are
-- the addresses and whose state counts what was opened.
use kokkeak_api.Config.{Settings, development, DatabaseSettings, database_is_configured}
use kokkeak_api.Config.Sample.{sample, db}
use kokkeak_api.Database.Topology.{TopologyError}
use kokkeak_api.Database.Topology.Opens.{Opens}
use kokkeak_api.Database.Connect.{Driver, build_pool, parse_connection_url, not_configured}
use kokkeak_api.Prelude.{String, ℕ, refl, ◌≡◌, ◌+◌, true}
use kokkeak_api.Effect.{good, bad}
use kokkeak_api.Text.{trim}
use kokkeak_api.Database.Topology.Owns.{Owns}

abbrev driver : Driver String String ℕ
driver = record {
  from_jdbc_string = λ s. good s;
  from_ado_string = λ s. good s;
  build = λ size timeout config d. (good config, d + 1);
  select_1 = λ p d. (good tt, d);
}

abbrev settings : Settings
settings = sample development ""

abbrev show : TopologyError → String
show e = "error"

-- An address of "disabled" among blanks counts as configured, but no pool is built from it.
abbrev padded : DatabaseSettings
padded = db " disabled " 20

padded_is_refused :
    (database_is_configured padded ≡ true) × ((build_pool driver padded 0).0 ≡ bad not_configured)
unfolding database_is_configured build_pool parse_connection_url trim
padded_is_refused = (refl, refl)
