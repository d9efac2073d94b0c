-- ===== src/Database/Migrations/Discover.antt =====
-- What `discover` of crates/infra/src/db/migrate.rs finds.
use kokkeak_api.Effect.{good, bad, Outcome}
use kokkeak_api.Database.Migrations.{
  Migration, DirEntry, text_leb, is_version, version_of, ends_with_text,
}
use kokkeak_api.Prelude.{
  ℕ, String, [], ◌∷◌, none, some, true, false, if◌then◌else◌, List, Bool, ◌≡◌, str_eq, ◌&&◌, ◌+◌,
}

-- No version is after the next one.
abbrev pub before_all : String → List Migration → Bool
before_all v [] = true
before_all v (m ∷ ms) = text_leb v m.version

abbrev pub sorted : List Migration → Bool
sorted [] = true
sorted (m ∷ ms) = before_all m.version ms && sorted ms

-- How often a list has a migration of a version.
abbrev pub count_version : String → List Migration → ℕ
count_version v [] = 0
count_version v (m ∷ ms) = (if str_eq m.version v then 1 else 0) + count_version v ms

-- How often a directory has a script of a version.
abbrev pub is_script : String → DirEntry → Bool
is_script v e = elim e.file_name [
  | none ↦ false
  | some name ↦ ends_with_text ".sql" name && str_eq (version_of name) v
]

abbrev pub count_scripts : String → List (Outcome String DirEntry) → ℕ
count_scripts v [] = 0
count_scripts v (bad e ∷ es) = count_scripts v es
count_scripts v (good e ∷ es) = (if is_script v e then 1 else 0) + count_scripts v es

abbrev pub all_valid : List Migration → Bool
all_valid [] = true
all_valid (m ∷ ms) = is_version m.version && all_valid ms

-- What the loop over the entries collects.
abbrev Collected : List (Outcome String DirEntry) → List Migration → Type 0
Collected es ms = ((v : String) → count_version v ms ≡ count_scripts v es) × (all_valid ms ≡ true)
