-- ===== src/Http/Signed/Laws.antt =====
-- What a signature of crates/api/src/signed_url.rs is good for.
use kokkeak_api.Http.Signed.{
  Signing, SignedUrl, sign, verify, signed_parts, same_bytes, signed_text, trim_slashes,
  saturating_add,
}
use mathlib.Core.Path.{subst}
use kokkeak_api.Prelude.{
  ℕ, ◌≡◌, true, false, refl, none, some, [], ◌∷◌, List, String, arith, ◌<◌, ◌+◌, Option, ◌≤◌, ◌^◌,
}
use kokkeak_api.Text.{trim}

same_bytes_refl : (bs : List ℕ) → same_bytes bs bs ≡ true
unfolding same_bytes
same_bytes_refl [] = refl
same_bytes_refl (b ∷ bs) = ground (arith, same_bytes_refl bs)

same_bytes-eq : (cs bs : List ℕ) → same_bytes cs bs ≡ true → cs ≡ bs
unfolding same_bytes
same_bytes-eq [] [] h = refl
same_bytes-eq [] (b ∷ bs) h = ground arith
same_bytes-eq (a ∷ more) [] h = ground arith
same_bytes-eq (a ∷ more) (b ∷ bs) h = ground (arith, same_bytes-eq more bs)

module _ (s : Signing) where
  -- A signature is accepted only before its time, and only if it is the code of the file's key and of
  -- that time under the secret.
  verify-true :
      (now : ℕ) (secret storage_key : String) (exp : ℕ) (sig : String)
      → verify s now secret storage_key exp sig ≡ true
      → (now < exp) × (s.decode sig ≡ some (s.mac secret (signed_text s storage_key exp)))
  unfolding verify
  verify-true now secret storage_key exp sig h = by_bytes (s.decode sig) refl
    where
      by_bytes :
          (o : Option (List ℕ))
          → s.decode sig ≡ o
          → (now < exp) × (s.decode sig ≡ some (s.mac secret (signed_text s storage_key exp)))
      by_bytes none k = ground arith
      by_bytes (some bytes) k =
          let same = same_bytes-eq bytes (s.mac secret (signed_text s storage_key exp)) in
          ground (arith, same)

  -- The code of a file's key and a time is accepted before that time and not from it on.
  verify-sign :
      (now : ℕ) (secret storage_key : String) (exp : ℕ)
      → ((k t : String) → s.decode (s.encode (s.mac k t)) ≡ some (s.mac k t))
      → (now < exp → verify s now secret storage_key exp (sign s secret storage_key exp) ≡ true)
        × (exp ≤ now → verify s now secret storage_key exp (sign s secret storage_key exp) ≡ false)
  unfolding verify sign
  verify-sign now secret storage_key exp decodes =
      let code = s.mac secret (signed_text s storage_key exp) in
      let decoded = decodes secret (signed_text s storage_key exp) in
      let same = same_bytes_refl code in (λ before. ground arith, λ after. ground arith)

  abbrev signed : ℕ → String → String → String → ℕ → SignedUrl
  signed now base storage_key secret ttl_secs = record {
    base = trim_slashes (trim base);
    storage_key = storage_key;
    exp = saturating_add now ttl_secs;
    sig = sign s secret storage_key (saturating_add now ttl_secs);
  }

  -- An address that was signed is accepted until its time to live is over, and not from then on, when
  -- the clock is far from the end of the 64-bit numbers and base64 decodes the codes that it encoded.
  pub signed_until :
      (now later : ℕ) (base storage_key secret : String) (ttl_secs : ℕ) (u : SignedUrl)
      → ((k t : String) → s.decode (s.encode (s.mac k t)) ≡ some (s.mac k t))
      → now + ttl_secs < 2 ^ 64
      → signed_parts s now base storage_key secret ttl_secs ≡ some u
      → (u.storage_key ≡ storage_key)
        × (later < now + ttl_secs → verify s later secret u.storage_key u.exp u.sig ≡ true)
        × (now + ttl_secs ≤ later → verify s later secret u.storage_key u.exp u.sig ≡ false)
  unfolding signed_parts
  signed_until now later base storage_key secret ttl_secs u decodes far given =
      let made : signed now base storage_key secret ttl_secs ≡ u = ground arith in
      let exp : saturating_add now ttl_secs ≡ now + ttl_secs = ground arith in
      let (before, after) =
        verify-sign later secret storage_key (saturating_add now ttl_secs) decodes in
      subst
        (λ v.
          (v.storage_key ≡ storage_key)
          × (later < now + ttl_secs → verify s later secret v.storage_key v.exp v.sig ≡ true)
          × (now + ttl_secs ≤ later → verify s later secret v.storage_key v.exp v.sig ≡ false))
        made (refl, λ early. before (omega arith), λ late. after (omega arith))
