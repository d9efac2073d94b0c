-- ===== src/Config/EnvFile/Laws.antt =====
-- What loading an environment file leaves in the environment.
use kokkeak_api.Dict.{lookup}
use kokkeak_api.Prelude.{
  String, none, some, [], if◌then◌else◌, ◌∷◌, List, Option, str_eq, ◌≡◌, true, Bool, ◌&&◌,
}
use kokkeak_api.Config.EnvFile.{assignment, can_set, Environment}
use kokkeak_api.Text.Lines.{starts_with_code, split_once, trim_matches}
use kokkeak_api.Text.{trim}

-- The first value that the lines give a variable, by the lines alone: a line that begins with `#`, after
-- blanks, gives none, and one with a `=` gives the text after it, without blanks and quotes.
pub first_value : String → List String → Option String
first_value k [] = none
first_value k (l ∷ ls) =
    let rest = first_value k ls in
    if starts_with_code b'#' (trim l) then rest else elim (split_once b'=' (trim l)) [
      | none ↦ rest
      | some (key, val) ↦
          if str_eq (trim key) k
          then some (trim_matches b'\'' (trim_matches b'"' (trim val)))
          else rest
    ]

first_assigned : String → List String → Option String
first_assigned k [] = none
first_assigned k (l ∷ ls) = elim (assignment l) [
  | none ↦ first_assigned k ls
  | some (key, val) ↦ if str_eq key k then some val else first_assigned k ls
]

-- What a variable holds when a file gives it a value, or none: a value that can be read is kept.
abbrev pub filled : Option (Option String) → Option String → Option (Option String)
filled (some (some v)) o = some (some v)
filled (some none) (some w) = some (some w)
filled (some none) none = some none
filled none (some w) = some (some w)
filled none none = none

-- The first of two values.
abbrev otherwise : Option String → Option String → Option String
otherwise (some a) o = some a
otherwise none o = o

-- No line gives a value to a name that the operating system refuses.
unfoldable pub settable : List String → Bool
settable [] = true
settable (l ∷ ls) = elim (assignment l) [
  | none ↦ settable ls
  | some (key, val) ↦ can_set key val && settable ls
]

-- What the lines leave: each variable keeps a value that can be read, and one that has none takes the
-- first value that the lines give it, if any.
abbrev pub FilledIn : List String → Environment → Environment → Type 0
FilledIn ls env env' = (k : String) → lookup k env' ≡ filled (lookup k env) (first_value k ls)

abbrev Assigned : List String → Environment → Environment → Type 0
Assigned ls env env' = (k : String) → lookup k env' ≡ filled (lookup k env) (first_assigned k ls)

-- The text of the first file that can be read.
unfoldable pub chosen : (String → Option String) → String
chosen read = elim (read ".env.production") [
  | some contents ↦ contents
  | none ↦ elim (read ".env.dev") [ some contents ↦ contents | none ↦ "" ]
]
