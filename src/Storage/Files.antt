-- ===== src/Storage/Files.antt =====
-- The blobs of the local store: `put`, `get` and `delete` of crates/infra/src/storage/local.rs. The file
-- system, over its state `F`, the hash and the texts of errors are parameters; a blob is its bytes.
pub mod Whole
mod Tests
use Prim.Native.Char.{code}
use Prim.Native.String
use kokkeak_api.Effect.{Method, Outcome, good, bad, pure, raise, write, ◌>>◌}
use kokkeak_api.Storage.{
  Component, root_dir, cur_dir, parent_dir, normal, resolve, LocalError, config, backend,
  invalid_key,
}
use kokkeak_api.Prelude.{
  ℕ, String, ◌==◌, [], ◌∷◌, length, none, some, true, false, if◌then◌else◌, List, Option, Bool, not,
  str_eq,
}
use kokkeak_api.Text.{is_empty}

pub data StorageError : Type 0 where
  storage_backend : String → StorageError
  too_large : ℕ → StorageError
  hash_mismatch : String → String → StorageError

pub record PutResult : Type 0 where
  pub key : String
  pub sha256 : String
  pub size : ℕ

pub data FileError : Type 0 where
  no_file : FileError
  other_error : String → FileError

pub record FileSystem (F : Type 0) : Type 0 where
  pub create_dir_all : List Component → F → Outcome String (Unit {0}) × F
  pub create : List Component → F → Outcome String (Unit {0}) × F
  pub write_all : List Component → List ℕ → F → Outcome String (Unit {0}) × F
  pub sync_all : List Component → F → Outcome String (Unit {0}) × F
  pub rename : List Component → List Component → F → Outcome String (Unit {0}) × F
  pub read : List Component → F → Outcome FileError (List ℕ)
  pub remove_file : List Component → F → Outcome FileError (Unit {0}) × F

pub of_local : LocalError → StorageError
of_local (config m) = storage_backend m
of_local (backend m) = storage_backend m
of_local (invalid_key m) = storage_backend m

-- The text before the last dot and the text after it.
pub rsplit_dot : String → Option (String × String)
rsplit_dot String.[] = none
rsplit_dot (String.◌∷◌ c s) = elim (rsplit_dot s) [
  | some (a, b) ↦ some (String.◌∷◌ c a, b)
  | none ↦ if code c == b'.' then some (String.[], s) else none
]

-- `with_extension` of a name: a name that only begins with a dot has no extension.
pub tmp_name : String → String
tmp_name name = elim (rsplit_dot name) [
  | none ↦ String.◌++◌ name ".part.tmp"
  | some (stem, ext) ↦
      if is_empty stem
      then String.◌++◌ name ".part.tmp"
      else String.◌++◌ stem (String.◌++◌ "." (String.◌++◌ ext ".tmp"))
]

abbrev no_name : List Component → Bool
no_name [] = true
no_name (cur_dir ∷ cs) = no_name cs
no_name (root_dir ∷ cs) = false
no_name (parent_dir ∷ cs) = false
no_name (normal s ∷ cs) = false

abbrev tmp_last : Component → List Component → List Component
tmp_last (normal s) cs = normal (tmp_name s) ∷ []
tmp_last c cs = c ∷ cs

-- The path of the file that is written first.
pub tmp_path : List Component → List Component
tmp_path [] = []
tmp_path (c ∷ cs) = let rest = tmp_path cs in if no_name cs then tmp_last c cs else c ∷ rest

abbrev before_last : Component → Option (List Component) → List Component
before_last c none = []
before_last c (some cs) = c ∷ cs

-- `Path::parent`; the root and the empty path have none.
pub parent_of : List Component → Option (List Component)
parent_of [] = none
parent_of (root_dir ∷ []) = none
parent_of (c ∷ cs) = if no_name cs then some [] else some (before_last c (parent_of cs))

abbrev pub mismatched : Option String → String → Bool
mismatched none actual = false
mismatched (some expected) actual = not (str_eq expected actual)

abbrev pub expected_of : Option String → String
expected_of none = ""
expected_of (some s) = s

module _ {F : Type 0} (fs : FileSystem F) (root : List Component) (sha256_hex : List ℕ → String)
    (text : String → List Component → String → String) where
  abbrev pub io :
      String
      → List Component
      → (F → Outcome String (Unit {0}) × F)
      → Method StorageError F (Unit {0})
  io what path f = write (λ e. storage_backend (text what path e)) f

  abbrev pub make_parent : List Component → Method StorageError F (Unit {0})
  make_parent abs = elim (parent_of abs) [
    | none ↦ pure tt
    | some parent ↦ io "create parent" parent (fs.create_dir_all parent)
  ]

  -- The writing of the file aside, and its move to its place.
  pub store_at : List Component → List ℕ → Method StorageError F (Unit {0})
  store_at abs bytes =
      make_parent abs
      >> io "create" (tmp_path abs) (fs.create (tmp_path abs))
      >> io "write" (tmp_path abs) (fs.write_all (tmp_path abs) bytes)
      >> io "sync" (tmp_path abs) (fs.sync_all (tmp_path abs))
      >> io "rename" abs (fs.rename (tmp_path abs) abs)

  abbrev pub result_of : String → List ℕ → PutResult
  result_of key bytes = record { key = key; sha256 = sha256_hex bytes; size = length bytes }

  pub put_at : String → List Component → List ℕ → Option String → Method StorageError F PutResult
  put_at key abs bytes expected =
      if mismatched expected (sha256_hex bytes)
      then raise (hash_mismatch (expected_of expected) (sha256_hex bytes))
      else (store_at abs bytes >> pure (result_of key bytes))

  pub put : String → List ℕ → Option String → Method StorageError F PutResult
  put key bytes expected = elim (resolve root key) [
    | bad e ↦ raise (of_local e)
    | good abs ↦ put_at key abs bytes expected
  ]

  abbrev read_result :
      List Component → Outcome FileError (List ℕ) → Outcome StorageError (Option (List ℕ))
  read_result abs (good v) = good (some v)
  read_result abs (bad no_file) = good none
  read_result abs (bad (other_error e)) = bad (storage_backend (text "read" abs e))

  pub get : String → F → Outcome StorageError (Option (List ℕ))
  get key f = elim (resolve root key) [
    | bad e ↦ bad (of_local e)
    | good abs ↦ read_result abs (fs.read abs f)
  ]

  abbrev remove_result :
      List Component → Outcome FileError (Unit {0}) × F → Outcome StorageError (Unit {0}) × F
  remove_result abs (good u, f) = (good tt, f)
  remove_result abs (bad no_file, f) = (good tt, f)
  remove_result abs (bad (other_error e), f) = (bad (storage_backend (text "delete" abs e)), f)

  pub delete : String → F → Outcome StorageError (Unit {0}) × F
  delete key f = elim (resolve root key) [
    | bad e ↦ (bad (of_local e), f)
    | good abs ↦ remove_result abs (fs.remove_file abs f)
  ]
