-- ===== src/Text/Template/Tests.antt =====
-- Tests of crates/common/src/i18n.rs.
use kokkeak_api.Text.Template.{
  substitute, substitute_from, detect_locale, from_header, first_known, primary, before,
}
use kokkeak_api.Prelude.{[], ◌∷◌, none, some, refl, ◌≡◌}
use kokkeak_api.Text.Lines.{split_on, split_once}
use kokkeak_api.Text.{trim}
use kokkeak_api.Text.Template.Escape.{escape, substitute-escape}

filled : substitute "{0} of {1}, {{x}} {2} {a} {" ("a" ∷ "b" ∷ []) ≡ "a of b, {x} {2} {a} {"
unfolding substitute substitute_from
filled = refl

-- A header that names no known language gives English, whatever the default is.
default_is_passed_over : detect_locale (λ s. s) none (some "fr-FR, de;q=0.8") "lo" ≡ "en"
unfolding detect_locale from_header first_known primary before split_on split_once trim
default_is_passed_over = refl

header_is_read : detect_locale (λ s. s) (some "fr") (some "fr, th-TH;q=0.8") "lo" ≡ "th"
unfolding detect_locale from_header first_known primary before split_on split_once trim
header_is_read = refl

substitute-escape_example : substitute (escape "{0} is {}") ("a" ∷ []) ≡ "{0} is {}"
substitute-escape_example = substitute-escape "{0} is {}" ("a" ∷ [])
