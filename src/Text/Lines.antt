-- ===== src/Text/Lines.antt =====
-- What the code uses of Rust's `str::lines`, `split_once` and `trim_matches`.
use Prim.Native.Char.{Char, code}
use Prim.Native.String.{[], ◌∷◌}
use kokkeak_api.Prelude.{
  ℕ, String, ◌==◌, none, some, false, [], if◌then◌else◌, ◌∷◌, ◌&&◌, List, Option, Bool, ◌||◌, refl,
  ◌≡◌,
}
use kokkeak_api.Text.{is_empty}

abbrev pub onto_first : Char → List String → List String
onto_first c [] = (c ∷ []) ∷ []
onto_first c (w ∷ ws) = (c ∷ w) ∷ ws

-- The text between the characters of one code.
unfoldable pub split_on : ℕ → String → List String
split_on k [] = [] ∷ []
split_on k (c ∷ s) = let rest = split_on k s in if code c == k then [] ∷ rest else onto_first c rest

-- A line that ends in `\r\n` loses both.
pub strip_return : String → String
strip_return [] = []
strip_return (c ∷ []) = if code c == b'\r' then [] else c ∷ []
strip_return (c ∷ d ∷ s) = c ∷ strip_return (d ∷ s)

-- What is after the last line feed is a line if it is not empty.
pub ended : List String → List String
ended [] = []
ended (w ∷ []) = if is_empty w then [] else w ∷ []
ended (w ∷ v ∷ ws) = strip_return w ∷ ended (v ∷ ws)

-- `str::lines`.
unfoldable pub lines : String → List String
unfolding split_on ended strip_return
lines s = ended (split_on b'\n' s)

abbrev keep_first : Char → Option (String × String) → Option (String × String)
keep_first c none = none
keep_first c (some (a, b)) = some (c ∷ a, b)

-- `str::split_once` at a character.
unfoldable pub split_once : ℕ → String → Option (String × String)
split_once k [] = none
split_once k (c ∷ s) =
    let rest = split_once k s in if code c == k then some ([], s) else keep_first c rest

pub drop_leading : ℕ → String → String
drop_leading k [] = []
drop_leading k (c ∷ s) = let rest = drop_leading k s in if code c == k then rest else c ∷ s

pub drop_trailing : ℕ → String → String
drop_trailing k [] = []
drop_trailing k (c ∷ s) =
    let rest = drop_trailing k s in if code c == k && is_empty rest then [] else c ∷ rest

-- `str::trim_matches` of a character.
unfoldable pub trim_matches : ℕ → String → String
unfolding drop_leading drop_trailing
trim_matches k s = drop_leading k (drop_trailing k s)

unfoldable pub contains_code : ℕ → String → Bool
contains_code k [] = false
contains_code k (c ∷ s) = code c == k || contains_code k s

abbrev pub starts_with_code : ℕ → String → Bool
starts_with_code k [] = false
starts_with_code k (c ∷ s) = code c == k

pub lines_empty : lines "" ≡ []
unfolding lines
lines_empty = refl
