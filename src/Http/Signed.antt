-- ===== src/Http/Signed.antt =====
-- Signed addresses of stored files: crates/api/src/signed_url.rs. HMAC-SHA256, base64 and the decimal
-- text of a number are parameters; the clock's reading in seconds is an argument.
pub mod Laws
mod Tests
use Prim.Native.Char.{code}
use Prim.Native.String
use Prim.Native.String.{[], ◌∷◌}
use kokkeak_api.Text.{trim, is_empty}
use kokkeak_api.Prelude.{
  ℕ, none, some, true, false, [], if◌then◌else◌, ◌∷◌, List, min, String, Option, ◌==◌, Bool, ◌+◌,
  ◌&&◌, leb, ◌^◌, ◌||◌, ◌-◌,
}

-- `new_from_slice`, `update` and `finalize` of HMAC-SHA256 on a secret and a text; `URL_SAFE_NO_PAD`;
-- `to_string` of a `u64`.
pub record Signing : Type 0 where
  pub mac : String → String → List ℕ
  pub encode : List ℕ → String
  pub decode : String → Option (List ℕ)
  pub show : ℕ → String

pub record SignedUrl : Type 0 where
  pub base : String
  pub storage_key : String
  pub exp : ℕ
  pub sig : String

-- `trim_end_matches('/')`
pub trim_slashes : String → String
trim_slashes [] = []
trim_slashes (c ∷ s) =
    let rest = trim_slashes s in if code c == b'/' && is_empty rest then [] else c ∷ rest

-- `==` on byte strings, which `verify_slice` makes.
pub same_bytes : List ℕ → List ℕ → Bool
same_bytes [] [] = true
same_bytes [] (b ∷ bs) = false
same_bytes (a ∷ more) [] = false
same_bytes (a ∷ more) (b ∷ bs) = a == b && same_bytes more bs

-- `saturating_add` on `u64`.
abbrev saturating_add : ℕ → ℕ → ℕ
saturating_add a b = min (a + b) (2 ^ 64 - 1)

module _ (s : Signing) where
  abbrev pub signed_text : String → ℕ → String
  signed_text storage_key exp = String.◌++◌ storage_key (String.◌++◌ "|" (s.show exp))

  pub sign : String → String → ℕ → String
  sign secret storage_key exp = s.encode (s.mac secret (signed_text storage_key exp))

  pub verify : ℕ → String → String → ℕ → String → Bool
  verify now secret storage_key exp sig = if leb exp now then false else elim (s.decode sig) [
    | none ↦ false
    | some bytes ↦ same_bytes bytes (s.mac secret (signed_text storage_key exp))
  ]

  pub signed_parts : ℕ → String → String → String → ℕ → Option SignedUrl
  signed_parts now public_base_url storage_key secret ttl_secs =
      let base = trim_slashes (trim public_base_url) in
      let exp = saturating_add now ttl_secs in
      if is_empty base || is_empty storage_key || is_empty secret || ttl_secs == 0
      then none
      else some (record {
        base = base;
        storage_key = storage_key;
        exp = exp;
        sig = sign secret storage_key exp;
      })

  abbrev url_text : SignedUrl → String
  url_text u = String.◌++◌ u.base (
      String.◌++◌ "/files/" (
        String.◌++◌ u.storage_key
          (String.◌++◌ "?exp=" (String.◌++◌ (s.show u.exp) (String.◌++◌ "&sig=" u.sig)))))

  pub signed_image_url : ℕ → String → String → String → ℕ → Option String
  signed_image_url now public_base_url storage_key secret ttl_secs =
      elim (signed_parts now public_base_url storage_key secret ttl_secs) [
        | none ↦ none
        | some u ↦ some (url_text u)
      ]
