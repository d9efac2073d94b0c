-- ===== src/Http/Signed/Tests.antt =====
-- Tests of crates/api/src/signed_url.rs, with a code that is the same for all texts.
use kokkeak_api.Http.Signed.{Signing, SignedUrl, signed_parts, sign, verify, trim_slashes}
use kokkeak_api.Http.Signed.Laws.{signed_until}
use kokkeak_api.Text.{trim}
use kokkeak_api.Prelude.{◌≡◌, refl, true, false, some, [], ◌∷◌, ◌<◌, ◌≤◌, arith}

abbrev constant : Signing
constant = record {
  mac = λ secret text. 1 ∷ [];
  encode = λ bytes. "AQ";
  decode = λ text. some (1 ∷ []);
  show = λ n. "0";
}

abbrev address : SignedUrl
address = record { base = "https://x"; storage_key = "users/1/a.webp"; exp = 160; sig = "AQ" }

signed_until_example :
    (address.storage_key ≡ "users/1/a.webp")
    × (159 < 160 → verify constant 159 "secret" address.storage_key 160 address.sig ≡ true)
    × (160 ≤ 159 → verify constant 159 "secret" address.storage_key 160 address.sig ≡ false)
unfolding signed_parts sign trim trim_slashes
signed_until_example =
    signed_until constant 100 159 "https://x/" "users/1/a.webp" "secret" 60 address (λ k t. refl)
      (omega arith) refl
