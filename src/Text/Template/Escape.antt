-- ===== src/Text/Template/Escape.antt =====
-- What `substitute` and `detect_locale` of crates/common/src/i18n.rs give.
use Prim.Native.Char.{Char, code}
use Prim.Native.String.{[], ◌∷◌, String}
use kokkeak_api.Text.Template.{
  substitute, substitute_from, detect_locale, is_known, first_known, from_header, primary,
  of_header, before, plain, opened, closed, read_char, Mode, onto,
}
use kokkeak_api.Prelude.{
  ℕ, ◌==◌, List, Bool, Option, refl, true, [], if◌then◌else◌, ◌∷◌, ◌≡◌, ◌||◌, none, some, inl, inr,
  Bool-cases, arith, ap, ◌∙◌,
}
use kokkeak_api.Prelude
use kokkeak_api.Text.{trim, is_empty}
use kokkeak_api.Text.Lines.{split_on}

-- A text with each brace doubled.
abbrev pub escape : String → String
escape [] = []
escape (c ∷ s) = if code c == b'{' || code c == b'}' then c ∷ c ∷ escape s else c ∷ escape s

-- Two characters that are read as one, and one that is read by itself.
substitute_from-pair :
    (args : List String) (c : Char) (s : String) (m : Mode)
    → read_char args plain c ≡ ("", m)
    → read_char args m c ≡ (c ∷ [], plain)
    → substitute_from args plain (c ∷ c ∷ s) ≡ c ∷ substitute_from args plain s
unfolding substitute_from
substitute_from-pair args c s m h k =
    ap (λ r. onto r.0 (substitute_from args r.1 (c ∷ s))) h
    ∙ ap (λ r. onto r.0 (substitute_from args r.1 s)) k

substitute_from-plain :
    (args : List String) (c : Char) (s : String)
    → read_char args plain c ≡ (c ∷ [], plain)
    → substitute_from args plain (c ∷ s) ≡ c ∷ substitute_from args plain s
unfolding substitute_from
substitute_from-plain args c s h = ap (λ r. onto r.0 (substitute_from args r.1 s)) h

substitute_from-escape :
    (s : String) (args : List String) → substitute_from args plain (escape s) ≡ s
unfolding substitute_from
substitute_from-escape [] args = refl
substitute_from-escape (c ∷ s) args = elim (Bool-cases (code c == b'{')) [
  | inl k ↦
      ap (substitute_from args plain) {x = escape (c ∷ s)} {y = c ∷ c ∷ escape s} (ground arith)
      ∙ substitute_from-pair args c (escape s) opened (ground arith) (ground arith)
      ∙ ap (c ∷◌) (substitute_from-escape s args)
  | inr k ↦ elim (Bool-cases (code c == b'}')) [
    | inl l ↦
        ap (substitute_from args plain) {x = escape (c ∷ s)} {y = c ∷ c ∷ escape s} (ground arith)
        ∙ substitute_from-pair args c (escape s) closed (ground arith) (ground arith)
        ∙ ap (c ∷◌) (substitute_from-escape s args)
    | inr l ↦
        ap (substitute_from args plain) {x = escape (c ∷ s)} {y = c ∷ escape s} (ground arith)
        ∙ substitute_from-plain args c (escape s) (ground arith)
        ∙ ap (c ∷◌) (substitute_from-escape s args)
  ]
]

-- A text is written as it stands by doubling its braces, whatever the arguments are.
pub substitute-escape : (s : String) (args : List String) → substitute (escape s) args ≡ s
unfolding substitute
substitute-escape s args = substitute_from-escape s args

first_known-is_known :
    (lower : String → String) (raws : List String) → is_known lower (first_known lower raws) ≡ true
unfolding first_known
first_known-is_known lower Prelude.[] = refl
first_known-is_known lower (Prelude.◌∷◌ raw raws) =
    elim (Bool-cases (is_known lower (primary lower (trim (before b';' raw))))) [
      | inl k ↦ rw k k
      | inr k ↦ rw k (first_known-is_known lower raws)
    ]

of_header-is_known :
    (lower : String → String) (accept : Option String) (default : String)
    → is_known lower default ≡ true
    → is_known lower (of_header lower accept default) ≡ true
unfolding from_header
of_header-is_known lower none default h = h
of_header-is_known lower (some value) default h =
    elim (Bool-cases (is_empty (from_header lower value))) [
      | inl k ↦ rw k h
      | inr k ↦ rw k (first_known-is_known lower (split_on b',' value))
    ]

-- The language of a request is one of the four that the program has, or the default where the request
-- names none.
pub detect_locale-is_known :
    (lower : String → String) (query accept : Option String) (default : String)
    → is_known lower default ≡ true
    → is_known lower (detect_locale lower query accept default) ≡ true
unfolding detect_locale
detect_locale-is_known lower none accept default h = of_header-is_known lower accept default h
detect_locale-is_known lower (some q) accept default h =
    elim (Bool-cases (is_known lower (primary lower q))) [
      | inl k ↦ rw k k
      | inr k ↦ rw k (of_header-is_known lower accept default h)
    ]
