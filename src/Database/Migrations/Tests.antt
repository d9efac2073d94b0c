-- ===== src/Database/Migrations/Tests.antt =====
-- Tests of crates/infra/src/db/migrate.rs. The state of the database is its table and the batches that
-- were run, the last one first.
use kokkeak_api.Effect.{good, bad, Outcome}
use kokkeak_api.Text.Lines.{lines, split_once}
use kokkeak_api.Database.Migrations.{
  Migration, MigrationDb, DirEntry, discover, run_migrations, split_go_batches, is_go, run, collect,
  apply_pending, split_lines, sort_by_version, apply_migration, version_of, apply_batches, place,
  is_version, all_digits, contains, ends_with_text, text_leb, invalid_filename,
}
use kokkeak_api.Database.Migrations.Records.{
  IsLawful, AllApart, has, Recorded, run_migrations-Recorded,
}
use kokkeak_api.Database.Migrations.Again.{run_migrations_again}
use kokkeak_api.Prelude.{
  String, [], ◌∷◌, some, refl, if◌then◌else◌, List, ◌≡◌, arith, str_eq, map, ap, ◌∙◌,
}
use kokkeak_api.Text.{trim, len}

abbrev Rows : Type 0
Rows = List String × List String

abbrev run_batch : String → Rows → Outcome String (Unit {0}) × Rows
run_batch sql (rows, log) =
    if str_eq sql "FAIL" then (bad "no", (rows, log)) else (good tt, (rows, sql ∷ log))

abbrev db : MigrationDb Rows
db = record {
  acquire = λ w. good tt;
  create_table = λ w. (good tt, w);
  select_applied = λ w. good (map some w.0);
  execute = run_batch;
  insert_version = λ v w. (good tt, (v ∷ w.0, w.1));
}

abbrev text : String → String → String
text a b = a

abbrev script : String → String → DirEntry
script name sql = record { path = name; file_name = some name; contents = good sql }

abbrev first_script : DirEntry
first_script = script "20260615000001_init.sql" "A\ngo\nB"

abbrev second_script : DirEntry
second_script = script "20260615000002_add_foo.sql" "C"

abbrev files : List (Outcome String DirEntry)
files = good second_script ∷ good (script "readme.md" "x") ∷ good first_script ∷ []

abbrev found : List Migration
found =
    record { version = "20260615000001"; path = "20260615000001_init.sql"; sql = "A\ngo\nB" }
    ∷ record { version = "20260615000002"; path = "20260615000002_add_foo.sql"; sql = "C" }
    ∷ []

bad_name :
    discover (good (good (script "not_a_version_init.sql" "x") ∷ []))
    ≡ bad (invalid_filename "not_a_version_init.sql")
unfolding discover collect version_of is_version all_digits ends_with_text split_once len
bad_name = refl

batches : split_go_batches "A\n Go \nSELECT 'GO'\n\ngo\n" ≡ "A\n" ∷ "SELECT 'GO'\n\n" ∷ []
unfolding split_go_batches split_lines is_go lines trim
batches = refl

ran :
    run db text (some (good files)) ([], [])
    ≡ (good 2, ("20260615000002" ∷ "20260615000001" ∷ [], "C" ∷ "B" ∷ "A" ∷ []))
unfolding run discover collect sort_by_version place version_of is_version all_digits ends_with_text
    text_leb split_once len run_migrations apply_pending apply_migration apply_batches
    split_go_batches split_lines is_go lines trim contains
ran = refl

-- A script that fails after its first batch: the batch has run, its version is not written down, and the
-- next start runs the batch again.
abbrev half_done : List Migration
half_done = record { version = "20260615000009"; path = "x"; sql = "A\nGO\nFAIL" } ∷ []

half_done_again : (run_migrations db text half_done ([], [])).1 ≡ ([], "A" ∷ [])
unfolding run_migrations apply_pending apply_migration apply_batches split_go_batches split_lines
    is_go lines trim contains
half_done_again = refl

half_done_twice : (run_migrations db text half_done ([], "A" ∷ [])).1 ≡ ([], "A" ∷ "A" ∷ [])
unfolding run_migrations apply_pending apply_migration apply_batches split_go_batches split_lines
    is_go lines trim contains
half_done_twice = refl

contains_rows : (rows : List String) (v : String) → contains (map some rows) v ≡ has rows v
unfolding contains
contains_rows [] v = refl
contains_rows (r ∷ rows) v = ground (arith, contains_rows rows v)

run_batch-keeps : (sql : String) (w : Rows) → (run_batch sql w).1.0 ≡ w.0
run_batch-keeps sql w = ground arith

half_done-AllApart : AllApart db (λ w. w.0) half_done
unfolding split_go_batches split_lines is_go lines trim
half_done-AllApart = ((run_batch-keeps "A", (run_batch-keeps "FAIL", tt)), tt)

found-AllApart : AllApart db (λ w. w.0) found
unfolding split_go_batches split_lines is_go lines trim
found-AllApart = ((run_batch-keeps "A", (run_batch-keeps "B", tt)), ((run_batch-keeps "C", tt), tt))

db-IsLawful : IsLawful db (λ w. w.0)
db-IsLawful = record {
  selected = λ w vs h v. ap (λ us. contains us v) (ground arith) ∙ contains_rows w.0 v;
  created = λ w. refl;
  inserted = λ v w h. refl;
  not_inserted = λ v e w h. ground arith;
}

run_migrations-Recorded_example :
    Recorded db text
      (λ w. w.0)
      db-IsLawful
      half_done
      []
      0
      ([], [])
      (run_migrations db text half_done ([], []))
run_migrations-Recorded_example =
    run_migrations-Recorded db text (λ w. w.0) db-IsLawful half_done ([], []) half_done-AllApart

run_migrations_again_example :
    ((run_migrations db text found (run_migrations db text found ([], [])).1).0 ≡ good 0)
    × ((run_migrations db text found (run_migrations db text found ([], [])).1).1.0
        ≡ (run_migrations db text found ([], [])).1.0)
unfolding run_migrations apply_pending apply_migration apply_batches split_go_batches split_lines
    is_go lines trim contains
run_migrations_again_example =
    run_migrations_again db text (λ w. w.0) db-IsLawful found ([], []) 2
      (some "20260615000002" ∷ some "20260615000001" ∷ []) found-AllApart refl refl
