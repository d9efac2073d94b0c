-- ===== src/Storage.antt =====
-- The keys of the local store: `resolve` of crates/infra/src/storage/local.rs, with the components that
-- Rust's `Path` gives on Unix, where no path has a prefix. A path is the list of its components.
pub mod Paths
pub mod Files
mod Tests
use Prim.Native.Char.{Char, code}
use Prim.Native.String
use Prim.Native.String.{[], ◌∷◌}
use kokkeak_api.Effect.{Outcome, good, bad}
use kokkeak_api.Text.{is_empty}
use kokkeak_api.Prelude.{
  ℕ, true, false, [], if◌then◌else◌, ◌∷◌, List, Bool, String, ◌||◌, str_eq, ◌==◌, ◌++◌,
}

pub data Component : Type 0 where
  root_dir cur_dir parent_dir : Component
  normal : String → Component

pub data LocalError : Type 0 where
  config backend invalid_key : String → LocalError

abbrev prepend : Char → List String → List String
prepend c [] = (c ∷ []) ∷ []
prepend c (w ∷ ws) = (c ∷ w) ∷ ws

-- The text between the slashes.
pub segments : String → List String
segments [] = [] ∷ []
segments (c ∷ s) = let rest = segments s in if code c == b'/' then [] ∷ rest else prepend c rest

-- A component that is not the first: `.` and nothing between two slashes are no component.
pub component_of : String → List Component
component_of s =
    if is_empty s || str_eq s "."
    then []
    else if str_eq s ".."
    then parent_dir ∷ []
    else normal s ∷ []

pub later_components : List String → List Component
later_components [] = []
later_components (w ∷ ws) = component_of w ++ later_components ws

abbrev first_components : List String → List Component
first_components [] = []
first_components (w ∷ ws) =
    if str_eq w "." then cur_dir ∷ later_components ws else later_components (w ∷ ws)

pub is_absolute : String → Bool
is_absolute [] = false
is_absolute (c ∷ s) = code c == b'/'

-- `Path::components`.
pub components : String → List Component
components s =
    if is_absolute s
    then root_dir ∷ later_components (segments s)
    else first_components (segments s)

abbrev escapes : Component → Bool
escapes root_dir = true
escapes parent_dir = true
escapes cur_dir = false
escapes (normal s) = false

-- The loop over the components.
pub any_escapes : List Component → Bool
any_escapes [] = false
any_escapes (c ∷ cs) = escapes c || any_escapes cs

pub resolve : List Component → String → Outcome LocalError (List Component)
resolve root key =
    if is_empty key
    then bad (invalid_key "<empty>")
    else if is_absolute key || any_escapes (components key)
    then bad (invalid_key key)
    else good (root ++ components key)
