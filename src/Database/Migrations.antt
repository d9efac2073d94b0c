-- ===== src/Database/Migrations.antt =====
-- The migrations: crates/infra/src/db/migrate.rs. The directory and the database are parameters; `M` is
-- the state of the database.
pub mod Batches
pub mod Discover
pub mod Records
pub mod Again
mod Tests
use Prim.Native.Char.{Char, code}
use Prim.Native.String
use Prim.Native.String.{String}
use kokkeak_api.Effect.{Method, pure, raise, write, read, good, bad, Outcome, ◌>>=◌, ◌>>◌}
use kokkeak_api.Text.Lines.{lines, split_once}
use kokkeak_api.Prelude.{
  ℕ, ◌==◌, none, some, true, false, [], if◌then◌else◌, ◌∷◌, Bool, Option, List, ◌+◌, not, leb, ltb,
  ◌||◌, ◌&&◌, str_eq,
}
use kokkeak_api.Text.{trim, is_empty, len}

pub data MigrateError : Type 0 where
  tds io invalid_filename : String → MigrateError

pub record Migration : Type 0 where
  pub version : String
  pub path : String
  pub sql : String

-- An entry of the directory: its name, if that is a text, and what reading the file gives.
pub record DirEntry : Type 0 where
  pub path : String
  pub file_name : Option String
  pub contents : Outcome String String

pub record MigrationDb (M : Type 0) : Type 0 where
  pub acquire : M → Outcome String (Unit {0})
  pub create_table : M → Outcome String (Unit {0}) × M
  pub select_applied : M → Outcome String (List (Option String))
  pub execute : String → M → Outcome String (Unit {0}) × M
  pub insert_version : String → M → Outcome String (Unit {0}) × M

-- `name.split('_').next()`.
pub version_of : String → String
version_of name = elim (split_once b'_' name) [ none ↦ name | some (version, rest) ↦ version ]

unfoldable pub all_digits : String → Bool
all_digits String.[] = true
all_digits (String.◌∷◌ c s) = leb b'0' (code c) && leb (code c) b'9' && all_digits s

pub is_version : String → Bool
is_version v = len v == 14 && all_digits v

unfoldable pub ends_with_text : String → String → Bool
ends_with_text t String.[] = str_eq t String.[]
ends_with_text t (String.◌∷◌ c s) = str_eq t (String.◌∷◌ c s) || ends_with_text t s

-- The order of Rust's strings, at most.
unfoldable pub text_leb : String → String → Bool
text_leb String.[] t = true
text_leb (String.◌∷◌ a s) String.[] = false
text_leb (String.◌∷◌ a s) (String.◌∷◌ b t) =
    let rest = text_leb s t in ltb (code a) (code b) || (code a == code b && rest)

-- A stable sort by version, like `sort_by`.
pub place : Migration → List Migration → List Migration
place m [] = m ∷ []
place m (n ∷ ns) = if text_leb m.version n.version then m ∷ n ∷ ns else n ∷ place m ns

pub sort_by_version : List Migration → List Migration
sort_by_version [] = []
sort_by_version (m ∷ ms) = place m (sort_by_version ms)

-- One entry: `none` is a file that is left out.
abbrev pub migration_of : DirEntry → Outcome MigrateError (Option Migration)
migration_of e = elim e.file_name [
  | none ↦ good none
  | some name ↦
      if not (ends_with_text ".sql" name)
      then good none
      else if not (is_version (version_of name))
      then bad (invalid_filename e.path)
      else elim e.contents [
        | bad why ↦ bad (io why)
        | good sql ↦ good (some (record { version = version_of name; path = e.path; sql = sql }))
      ]
]

abbrev pub and_one : Option Migration → List Migration → List Migration
and_one none ms = ms
and_one (some m) ms = m ∷ ms

pub collect : List (Outcome String DirEntry) → Outcome MigrateError (List Migration)
collect [] = good []
collect (bad e ∷ es) = bad (io e)
collect (good e ∷ es) = elim (migration_of e) [
  | bad why ↦ bad why
  | good o ↦ elim (collect es) [ bad why ↦ bad why | good ms ↦ good (and_one o ms) ]
]

pub discover :
    Outcome String (List (Outcome String DirEntry)) → Outcome MigrateError (List Migration)
discover (bad e) = bad (io e)
discover (good es) = elim (collect es) [ bad why ↦ bad why | good ms ↦ good (sort_by_version ms) ]

-- `eq_ignore_ascii_case("go")`.
abbrev pub is_go_text : String → Bool
is_go_text (String.◌∷◌ a (String.◌∷◌ b String.[])) =
    (code a == b'g' || code a == b'G') && (code b == b'o' || code b == b'O')
is_go_text s = false

pub is_go : String → Bool
is_go line = is_go_text (trim line)

abbrev pub flush : String → List String → List String
flush current rest = if is_empty (trim current) then rest else current ∷ rest

-- The loop over the lines, with the batch that is being read.
pub split_lines : String → List String → List String
split_lines current [] = flush current []
split_lines current (l ∷ ls) = elim (is_go l) [
  | true ↦ flush current (split_lines "" ls)
  | false ↦ split_lines (String.◌++◌ current (String.◌++◌ l "\n")) ls
]

pub split_go_batches : String → List String
split_go_batches sql = split_lines "" (lines sql)

unfoldable pub contains : List (Option String) → String → Bool
contains [] v = false
contains (none ∷ vs) v = contains vs v
contains (some w ∷ vs) v = str_eq w v || contains vs v

module _ {M : Type 0} (db : MigrationDb M) (text : String → String → String) where
  -- `text` stands for the text of an error after what was being done, less the version that it names.
  abbrev run_sql : String → Method MigrateError M (Unit {0})
  run_sql sql = write (λ e. tds (text "migration" e)) (db.execute sql)

  pub apply_batches : List String → Method MigrateError M (Unit {0})
  apply_batches [] = pure tt
  apply_batches (b ∷ bs) = elim (is_empty (trim b)) [
    | true ↦ apply_batches bs
    | false ↦ run_sql (trim b) >> apply_batches bs
  ]

  abbrev pub acquired : Method MigrateError M (Unit {0})
  acquired = read (λ e. tds (text "acquire" e)) db.acquire

  pub apply_migration : Migration → Method MigrateError M (Unit {0})
  apply_migration m =
      acquired
      >> apply_batches (split_go_batches m.sql)
      >> write (λ e. tds (text "insert migration" e)) (db.insert_version m.version)

  -- The loop over the migrations, with the number of those that were applied.
  pub apply_pending : List (Option String) → List Migration → ℕ → Method MigrateError M ℕ
  apply_pending applied [] n = pure n
  apply_pending applied (m ∷ ms) n = elim (contains applied m.version) [
    | true ↦ apply_pending applied ms n
    | false ↦ apply_migration m >> apply_pending applied ms (n + 1)
  ]

  -- What is written down, after the table was created if it was not there.
  abbrev pub read_applied : Method MigrateError M (List (Option String))
  read_applied =
      acquired
      >> write (λ e. tds (text "create schema_migrations" e)) db.create_table
      >> acquired
      >> read (λ e. tds (text "select applied" e)) db.select_applied

  pub run_migrations : List Migration → Method MigrateError M ℕ
  run_migrations [] = pure 0
  run_migrations (m ∷ ms) = read_applied >>= λ applied. apply_pending applied (m ∷ ms) 0

  -- `entries` is what reading the directory gives, where it exists.
  pub run : Option (Outcome String (List (Outcome String DirEntry))) → Method MigrateError M ℕ
  run none = pure 0
  run (some entries) = elim (discover entries) [ bad e ↦ raise e | good ms ↦ run_migrations ms ]
