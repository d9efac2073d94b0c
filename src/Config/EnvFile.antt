-- ===== src/Config/EnvFile.antt =====
-- `load_env_file` of crates/common/src/config.rs. The environment maps names to values, of which one
-- that is not Unicode is `none`; `read` stands for the file system. `set_var` panics as the documentation of `std` says: then the result is `none`.
pub mod Laws
mod Tests
use kokkeak_api.Prelude.{
  ℕ, String, none, some, [], if◌then◌else◌, ◌∷◌, Option, Bool, List, not, ◌||◌,
}
use kokkeak_api.Dict.{Dict, lookup, insert}
use kokkeak_api.Text.Lines.{lines, contains_code, starts_with_code, split_once, trim_matches}
use kokkeak_api.Text.{trim, is_empty}

-- A variable and its value, if the line holds them.
pub assignment : String → Option (String × String)
assignment raw =
    let line = trim raw in
    if is_empty line || starts_with_code b'#' line then none else elim (split_once b'=' line) [
      | none ↦ none
      | some (key, val) ↦ some (trim key, trim_matches b'\'' (trim_matches b'"' (trim val)))
    ]

abbrev pub can_set : String → String → Bool
can_set key val =
    not (is_empty key || contains_code b'=' key || contains_code 0 key || contains_code 0 val)

abbrev pub Environment : Type 0
Environment = Dict (Option String)

abbrev joined : Option (Option String) → Option String
joined none = none
joined (some o) = o

-- `std::env::var(key).ok()`: a value that is not Unicode is an error, like no value.
unfoldable pub env_var : String → Environment → Option String
env_var key env = joined (lookup key env)

-- A variable whose value can be read keeps it.
pub assign : String × String → Environment → Option Environment
assign (key, val) env = elim (env_var key env) [
  | some v ↦ some env
  | none ↦ if can_set key val then some (insert key (some val) env) else none
]

abbrev pub then_with {ℓ} : {A : Type ℓ} → Option A → (A → Option A) → Option A
then_with none f = none
then_with (some a) f = f a

pub load_line : String → Environment → Option Environment
load_line line env = elim (assignment line) [ none ↦ some env | some a ↦ assign a env ]

pub load_lines : List String → Environment → Option Environment
load_lines [] env = some env
load_lines (l ∷ ls) env = then_with (load_line l env) (load_lines ls)

-- The first file that can be read.
pub load_first : (String → Option String) → List String → Environment → Option Environment
load_first read [] env = some env
load_first read (path ∷ paths) env = elim (read path) [
  | some contents ↦ load_lines (lines contents) env
  | none ↦ load_first read paths env
]

pub load_env_file : (String → Option String) → Environment → Option Environment
load_env_file read env = load_first read (".env.production" ∷ ".env.dev" ∷ []) env
