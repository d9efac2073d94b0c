-- ===== src/Text.antt =====
-- What the code uses of Rust's strings: white space, `trim`, `is_empty`, and reading a `u32`.
pub mod Lines
pub mod Template
use Prim.Native.Char.{code}
use Prim.Native.String.{[], ◌∷◌}
use kokkeak_api.Prelude.{
  ℕ, ◌+◌, ◌-◌, ◌*◌, String, Bool, true, false, ◌&&◌, ◌||◌, Option, none, some, leb, ltb, ◌==◌, ◌≡◌,
  refl, if◌then◌else◌, u32_mod, [], ◌∷◌, str_eq, Bool-cases, inl, inr, ap, sym, eq_iff, arith,
}

-- `char::is_whitespace`: the code points with the property White_Space.
abbrev pub is_whitespace : ℕ → Bool
is_whitespace c =
    (leb 0x9 c && leb c 0xd)
    || c == 0x20
    || c == 0x85
    || c == 0xa0
    || c == 0x1680
    || (leb 0x2000 c && leb c 0x200a)
    || c == 0x2028
    || c == 0x2029
    || c == 0x202f
    || c == 0x205f
    || c == 0x3000

abbrev pub is_empty : String → Bool
is_empty [] = true
is_empty (c ∷ s) = false

pub is_empty_eq : (s : String) → is_empty s ≡ str_eq s ""
is_empty_eq [] = refl
is_empty_eq (c ∷ s) = elim (Bool-cases (str_eq (c ∷ s) "")) [
  | inl e ↦ let clash : false ≡ true = ap is_empty ((eq_iff (c ∷ s) "").0 e) in ground arith
  | inr e ↦ sym e
]

-- `str::len`: the bytes of the text in UTF-8.
abbrev pub utf8_width : ℕ → ℕ
utf8_width c = if ltb c 0x80 then 1 else if ltb c 0x800 then 2 else if ltb c 0x10000 then 3 else 4

unfoldable pub len : String → ℕ
len [] = 0
len (c ∷ s) = utf8_width (code c) + len s

pub trim_start : String → String
trim_start [] = []
trim_start (c ∷ s) = let rest = trim_start s in if is_whitespace (code c) then rest else c ∷ s

pub trim_end : String → String
trim_end [] = []
trim_end (c ∷ s) =
    let rest = trim_end s in if is_whitespace (code c) && is_empty rest then [] else c ∷ rest

-- `str::trim`.
unfoldable pub trim : String → String
unfolding trim_start trim_end
trim s = trim_start (trim_end s)

digits : ℕ → String → Option ℕ
digits n [] = some n
digits n (c ∷ s) =
    let m = n * 10 + (code c - b'0') in
    let rest = digits m s in
    if leb b'0' (code c) && leb (code c) b'9' && ltb m u32_mod then rest else none

unsigned : String → Option ℕ
unfolding digits
unsigned [] = none
unsigned (c ∷ s) = digits 0 (c ∷ s)

-- `str::parse::<u32>`: decimal digits with an optional `+`, and no overflow.
unfoldable pub parse_u32 : String → Option ℕ
unfolding unsigned
parse_u32 [] = none
parse_u32 (c ∷ s) = if code c == b'+' then unsigned s else unsigned (c ∷ s)

parse_u32_examples :
    (parse_u32 "17" ≡ some 17) × (parse_u32 "+4" ≡ some 4) × (parse_u32 "4294967296" ≡ none)
unfolding parse_u32
parse_u32_examples = (refl, refl, refl)
