-- ===== src/Text/Template.antt =====
-- The texts of a language: `substitute`, `detect_locale` and `Locale::from_header` of
-- crates/common/src/i18n.rs. The loop of `substitute` with its look-ahead is a machine that reads one
-- character at a time. An index past the arguments and one past `usize` are both left as they stand.
pub mod Escape
mod Tests
use Prim.Native.Char.{Char, code}
use Prim.Native.String.{[], ◌∷◌, String}
use kokkeak_api.Prelude.{
  ℕ, ◌==◌, List, Bool, Option, zero, suc, none, some, [], if◌then◌else◌, ◌∷◌, leb, ◌*◌, str_eq,
  ◌&&◌, ◌||◌, ◌+◌, ◌-◌,
}
use kokkeak_api.Prelude
use kokkeak_api.Text.{trim, is_empty}
use kokkeak_api.Text.Lines.{split_on, split_once}

-- What was read of a place holder: nothing, `{`, `{` and digits, or `}`.
pub data Mode : Type 0 where
  plain opened closed : Mode
  numbered : String → Mode

abbrev pub onto : String → String → String
onto [] t = t
onto (c ∷ s) t = c ∷ onto s t

abbrev pub is_digit : Char → Bool
is_digit c = leb b'0' (code c) && leb (code c) b'9'

abbrev index_from : ℕ → String → ℕ
index_from n [] = n
index_from n (c ∷ s) = index_from (n * 10 + (code c - b'0')) s

abbrev nth : ℕ → List String → Option String
nth n Prelude.[] = none
nth zero (Prelude.◌∷◌ a args) = some a
nth (suc n) (Prelude.◌∷◌ a args) = nth n args

-- The argument of an index, or the place holder itself.
abbrev pub argument : List String → String → String
argument args ds = elim (nth (index_from 0 ds) args) [ some a ↦ a | none ↦ onto "{" (onto ds "}") ]

-- Outside of a place holder.
abbrev pub read_plain : Char → String × Mode
read_plain c =
    if code c == b'{'
    then ("", opened)
    else if code c == b'}'
    then ("", closed)
    else (c ∷ [], plain)

abbrev pub after : String → String × Mode → String × Mode
after s (out, m) = (onto s out, m)

abbrev pub read_char : List String → Mode → Char → String × Mode
read_char args plain c = read_plain c
read_char args opened c =
    if code c == b'{'
    then (c ∷ [], plain)
    else if code c == b'}'
    then ("{}", plain)
    else if is_digit c
    then ("", numbered (c ∷ []))
    else after "{" (read_plain c)
read_char args (numbered ds) c =
    if code c == b'}'
    then (argument args ds, plain)
    else if is_digit c
    then ("", numbered (onto ds (c ∷ [])))
    else after (onto "{" ds) (read_plain c)
read_char args closed c = if code c == b'}' then (c ∷ [], plain) else after "}" (read_plain c)

abbrev pub at_end : Mode → String
at_end plain = ""
at_end opened = "{"
at_end closed = "}"
at_end (numbered ds) = onto "{" ds

unfoldable pub substitute_from : List String → Mode → String → String
substitute_from args m [] = at_end m
substitute_from args m (c ∷ s) =
    let (out, m') = read_char args m c in onto out (substitute_from args m' s)

unfoldable pub substitute : String → List String → String
substitute template args = substitute_from args plain template

-- The text before the first character of a code: `split(…).next()`.
pub before : ℕ → String → String
before k s = elim (split_once k s) [ none ↦ s | some (a, b) ↦ a ]

-- `to_lowercase` of a text, as far as a text of ASCII comes out of it: `lower` stands for it.
module _ (lower : String → String) where
  pub primary : String → String
  primary tag = lower (before b'-' tag)

  abbrev pub is_known : String → Bool
  is_known s = str_eq s "th" || str_eq s "en" || str_eq s "lo" || str_eq s "zh"

  pub first_known : List String → String
  first_known Prelude.[] = "en"
  first_known (Prelude.◌∷◌ raw raws) =
      let tag = primary (trim (before b';' raw)) in if is_known tag then tag else first_known raws

  pub from_header : String → String
  from_header value = first_known (split_on b',' value)

  abbrev of_header : Option String → String → String
  of_header none default = default
  of_header (some h) default = if is_empty (from_header h) then default else from_header h

  pub detect_locale : Option String → Option String → String → String
  detect_locale none accept_lang default = of_header accept_lang default
  detect_locale (some q) accept_lang default =
      if is_known (primary q) then primary q else of_header accept_lang default
