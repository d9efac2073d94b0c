-- ===== src/Auth/Sessions/Keys.antt =====
-- The keys of crates/infra/src/auth/session_store.rs tell the sessions apart.
use Prim.Native.String
use Prim.Native.String.append.{nil, cons}
use kokkeak_api.Auth.Sessions.{RedisSessionStore, session_key}
use kokkeak_api.Prelude.{ℕ, String, ◌≡◌, ◌+◌, arith, refl, sym, ◌≢◌, ◌∙◌}

abbrev pub count_chars : String → ℕ
count_chars String.[] = 0
count_chars (String.◌∷◌ c s) = 1 + count_chars s

-- Texts that begin with texts of one length and are equal are equal in both parts.
append_cancel :
    (a b s t : String) → count_chars a ≡ count_chars b → String.◌++◌ a s ≡ String.◌++◌ b t → s ≡ t
append_cancel String.[] String.[] s t n h = sym (λ i. nil s i) ∙ h ∙ λ i. nil t i
append_cancel String.[] (String.◌∷◌ d b) s t n h = ground arith
append_cancel (String.◌∷◌ c a) String.[] s t n h = ground arith
append_cancel (String.◌∷◌ c a) (String.◌∷◌ d b) s t n h =
    let tails : String.◌∷◌ c (String.◌++◌ a s) ≡ String.◌∷◌ d (String.◌++◌ b t) =
      sym (λ i. cons c a s i) ∙ h ∙ λ i. cons d b t i in
    append_cancel a b s t (omega (arith, n)) (ground (arith, tails))

-- Where the texts of users have one length, sessions with different identifiers have different keys,
-- whoever they belong to.
pub session_key-ne :
    {R V : Type 0} (store : RedisSessionStore R V) (id id' : ℕ) (jti jti' : String)
    → ((m n : ℕ) → count_chars (store.uuid_text m) ≡ count_chars (store.uuid_text n))
    → jti ≢ jti'
    → session_key store id jti ≢ session_key store id' jti'
unfolding session_key
session_key-ne store id id' jti jti' one_length differ same =
    let past_prefix = append_cancel store.key_prefix store.key_prefix _ _ refl same in
    let past_colon = append_cancel ":" ":" _ _ refl past_prefix in
    let past_user =
      append_cancel (store.uuid_text id) (store.uuid_text id') _ _ (one_length id id') past_colon in
    differ (append_cancel ":" ":" jti jti' refl past_user)
