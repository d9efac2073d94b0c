-- ===== src/Database/Connect.antt =====
-- A pool of connections from the settings of a database: `build_pool`, `parse_connection_url` and
-- `ping` of crates/infra/src/db/mssql.rs. The crate `tiberius` reads an address and the crate `bb8`
-- keeps the pool; they are parameters, over the state `D` of what is connected.
use Prim.Native.Char.{Char, code}
use Prim.Native.String
use Prim.Native.String.{String}
use kokkeak_api.Config.{DatabaseSettings, database_is_configured}
use kokkeak_api.Text.Lines.{contains_code}
use kokkeak_api.Prelude.{
  ℕ, none, some, true, false, if◌then◌else◌, Option, Bool, not, ◌==◌, ◌&&◌, ◌||◌, str_eq,
}
use kokkeak_api.Effect.{Outcome, bad, good}
use kokkeak_api.Text.{is_empty, trim}

pub data MssqlError : Type 0 where
  invalid_url pool_build tiberius health_probe : String → MssqlError
  not_configured : MssqlError

-- `Config::from_jdbc_string`, `Config::from_ado_string`, `Pool::builder()…build(manager)` with its
-- size and time-out, and `SELECT 1` on a connection of the pool.
pub record Driver (C P D : Type 0) : Type 0 where
  pub from_jdbc_string : String → Outcome String C
  pub from_ado_string : String → Outcome String C
  pub build : ℕ → ℕ → C → D → Outcome String P × D
  pub select_1 : P → D → Outcome String (Unit {0}) × D

abbrev same_char : Char → Char → Bool
same_char a b = code a == code b

-- `str::strip_prefix`.
unfoldable pub strip_prefix : String → String → Option String
strip_prefix String.[] s = some s
strip_prefix (String.◌∷◌ a p) String.[] = none
strip_prefix (String.◌∷◌ a p) (String.◌∷◌ b s) =
    let rest = strip_prefix p s in if same_char a b then rest else none

abbrev is_some {ℓ} : {A : Type ℓ} → Option A → Bool
is_some none = false
is_some (some a) = true

-- `str::contains` of a text.
unfoldable pub contains_text : String → String → Bool
contains_text t String.[] = is_empty t
contains_text t (String.◌∷◌ c s) = is_some (strip_prefix t (String.◌∷◌ c s)) || contains_text t s

module _ {C P D : Type 0} (driver : Driver C P D) where
  abbrev show_url : Outcome String C → Outcome MssqlError C
  show_url (good c) = good c
  show_url (bad e) = bad (invalid_url e)

  abbrev jdbc : String → Outcome MssqlError C
  jdbc rest = show_url (driver.from_jdbc_string (String.◌++◌ "jdbc:sqlserver://" rest))

  unfoldable pub parse_connection_url_impl : String → Outcome MssqlError C
  parse_connection_url_impl trimmed = elim (strip_prefix "jdbc:sqlserver://" trimmed) [
    | some rest ↦ jdbc rest
    | none ↦ elim (strip_prefix "mssql://" trimmed) [
      | some rest ↦ jdbc rest
      | none ↦ elim (strip_prefix "sqlserver://" trimmed) [
        | some rest ↦ jdbc rest
        | none ↦
            if contains_code b';' trimmed
              && (contains_text "Server=" trimmed || contains_text "server=" trimmed)
            then show_url (driver.from_ado_string trimmed)
            else show_url (driver.from_jdbc_string trimmed)
      ]
    ]
  ]

  unfoldable pub parse_connection_url : String → Outcome MssqlError C
  parse_connection_url raw =
      if is_empty (trim raw) || str_eq (trim raw) "disabled"
      then bad not_configured
      else parse_connection_url_impl (trim raw)

  abbrev built : Outcome String P × D → Outcome MssqlError P × D
  built (good p, d) = (good p, d)
  built (bad e, d) = (bad (pool_build e), d)

  abbrev build_with : DatabaseSettings → Outcome MssqlError C → D → Outcome MssqlError P × D
  build_with settings (bad e) d = (bad e, d)
  build_with settings (good config) d =
      built (driver.build settings.pool_size settings.connect_timeout_secs config d)

  unfoldable pub build_pool : DatabaseSettings → D → Outcome MssqlError P × D
  build_pool settings d =
      if not (database_is_configured settings)
      then (bad not_configured, d)
      else build_with settings (parse_connection_url settings.sqlserver_url) d

  abbrev probed : Outcome String (Unit {0}) × D → Outcome MssqlError (Unit {0}) × D
  probed (good u, d) = (good tt, d)
  probed (bad e, d) = (bad (health_probe e), d)

  unfoldable pub ping : P → D → Outcome MssqlError (Unit {0}) × D
  ping pool d = probed (driver.select_1 pool d)
