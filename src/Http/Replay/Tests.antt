-- ===== src/Http/Replay/Tests.antt =====
-- Tests of crates/api/src/middleware/idempotency.rs, at an application that counts its requests and
-- bodies that are byte strings.
use kokkeak_api.Http.{Request, Axum, Next}
use kokkeak_api.Http.Replay.{handle, new, key_of, run_and_keep, get}
use kokkeak_api.Http.Replay.Laws.{replayed_once}
use kokkeak_api.Prelude.{
  ℕ, List, some, none, [], ◌∷◌, ltb, length, refl, ◌≡◌, if◌then◌else◌, arith, ◌+◌,
}

abbrev axum : Axum (List ℕ)
axum = record {
  to_str = λ v. some "pay-1";
  from_str = λ s. some [];
  is_success = λ n. ltb n 300;
  from_u16 = λ n. some n;
  to_bytes = λ limit b. if ltb limit (length b) then none else some b;
  from_bytes = λ b. b;
  empty_body = [];
}

-- With a reader of bodies that refuses them all.
abbrev refusing : Axum (List ℕ)
refusing = record axum { to_bytes = λ limit b. none }

abbrev count : Next (List ℕ) ℕ
count req n = (record { status = 201; headers = []; body = n ∷ [] }, n + 1)

abbrev post : Request (List ℕ)
post = record {
  method = "POST";
  path = "/payments";
  headers = ("idempotency-key", 1 ∷ []) ∷ [];
  body = 7 ∷ [];
}

abbrev other : Request (List ℕ)
other = record post { path = "/orders"; body = 8 ∷ [] }

replayed_once_example :
    let (first, st) = handle axum count (λ ks. ks) 60 0 1 post (5, new 10) in
    let (second, st') = handle axum count (λ ks. ks) 60 20 21 other (9, st.1) in
    (st ≡ (6, st.1))
    × (st' ≡ (9, st.1))
    × (second.status ≡ first.status)
    × (second.body ≡ first.body)
unfolding key_of get kokkeak_api.Dict.lookup kokkeak_api.Text.trim kokkeak_api.Http.Replay.get_entry
replayed_once_example =
    replayed_once axum count (λ ks. ks) 60 0 1 20 21 post other "pay-1" 5 (new 10) (5 ∷ []) 9
      (handle axum count (λ ks. ks) 60 0 1 post (5, new 10)).1.1 refl refl refl refl refl refl refl
      refl (ground arith) refl
