-- ===== src/Http/Replay/Laws.antt =====
-- What a request under an idempotency key gets the second time: `handle` of
-- crates/api/src/middleware/idempotency.rs.
use kokkeak_api.Http.{Request, Axum, Next}
use kokkeak_api.Http.Replay.{
  get, get_entry, put, keep, run_and_keep, with_key, handle, key_of, replay, cached_of,
  InMemoryIdempotencyStore, CachedResponse, max_cacheable_body, Entry, room,
}
use kokkeak_api.Dict.{lookup-insert, lookup}
use kokkeak_api.Duration.{Duration}
use kokkeak_api.Prelude.{
  ℕ, String, List, none, some, true, ◌≡◌, arith, eq_refl, ◌<◌, str_eq, ◌+◌, refl, ◌∙◌, ap,
}

-- What was put under a key is found until it expires, in any store that still has it.
get-put :
    (iter : List String → List String) (key : String) (response : CachedResponse) (ttl : Duration)
    (now later : ℕ) (s s' : InMemoryIdempotencyStore)
    → later < now + ttl
    → lookup key s'.entries ≡ lookup key (put iter key response ttl now s).entries
    → get key later s' ≡ (some response, s')
unfolding get get_entry put
get-put iter key response ttl now later s s' h same =
    let entry : Entry = record { response = response; expires_at = now + ttl } in
    let kept = lookup-insert key key entry (room iter s) in ground (arith, kept, eq_refl key)

get_missing :
    (key : String) (now : ℕ) (s : InMemoryIdempotencyStore)
    → lookup key s.entries ≡ none
    → get key now s ≡ (none, s)
unfolding get get_entry
get_missing key now s missing = rw missing refl

module _ {B S : Type 0} (axum : Axum B) (next : Next B S) (iter : List String → List String)
    (ttl : Duration) where
  -- The request is run, and its response can be kept.
  first_time :
      (get_at put_at : ℕ) (req : Request B) (k : String) (app : S)
      (store : InMemoryIdempotencyStore) (bytes : List ℕ)
      → str_eq req.method "POST" ≡ true
      → key_of axum req ≡ some k
      → (get k get_at store).0 ≡ none
      → axum.is_success (next req app).0.status ≡ true
      → axum.to_bytes max_cacheable_body (next req app).0.body ≡ some bytes
      → handle axum next iter ttl get_at put_at req (app, store) ≡ (
        record (next req app).0 { body = axum.from_bytes bytes },
        (
          (next req app).1,
          put iter k (cached_of axum (next req app).0 bytes) ttl put_at (get k get_at store).1,
        ),
      )
  unfolding handle with_key run_and_keep keep
  first_time get_at put_at req k app store bytes post has_key fresh success fits = ground arith

  second_time :
      (get_at put_at : ℕ) (req : Request B) (k : String) (app : S)
      (store store' : InMemoryIdempotencyStore) (c : CachedResponse)
      → str_eq req.method "POST" ≡ true
      → key_of axum req ≡ some k
      → get k get_at store ≡ (some c, store')
      → handle axum next iter ttl get_at put_at req (app, store) ≡ (replay axum c, (app, store'))
  unfolding handle with_key
  second_time get_at put_at req k app store store' c post has_key kept = ground arith

  -- A request is not run twice while its response is kept. After a POST with an idempotency key whose
  -- handler succeeded with a response that can be kept, and whatever happened since to the application
  -- and to the other entries of the store, a POST with the same key that comes before the response
  -- expires, and finds in the store what the first one left there under the key, is not handed to the
  -- application, changes neither the application nor the store, and is answered with the status and
  -- the body of the first response, when status codes survive their numbers. (A full store drops
  -- entries before they expire: then the request is run again.)
  pub replayed_once :
      (get_at put_at again_at later : ℕ) (req again : Request B) (k : String) (app : S)
      (store : InMemoryIdempotencyStore) (bytes : List ℕ) (app' : S)
      (store' : InMemoryIdempotencyStore)
      → str_eq req.method "POST" ≡ true
      → str_eq again.method "POST" ≡ true
      → key_of axum req ≡ some k
      → key_of axum again ≡ some k
      → (get k get_at store).0 ≡ none
      → axum.is_success (next req app).0.status ≡ true
      → axum.to_bytes max_cacheable_body (next req app).0.body ≡ some bytes
      → axum.from_u16 (next req app).0.status ≡ some (next req app).0.status
      → again_at < put_at + ttl
      → lookup k store'.entries
        ≡ lookup k (handle axum next iter ttl get_at put_at req (app, store)).1.1.entries
      → let (first, st) = handle axum next iter ttl get_at put_at req (app, store) in
        let (second, st') = handle axum next iter ttl again_at later again (app', store') in
        (st ≡ ((next req app).1, st.1))
        × (st' ≡ (app', store'))
        × (second.status ≡ first.status)
        × (second.body ≡ first.body)
  unfolding replay cached_of
  replayed_once get_at put_at again_at later req again k app store bytes app' store' post post'
        has_key has_key' fresh success fits status early still =
      let ran = first_time get_at put_at req k app store bytes post has_key fresh success fits in
      let c = cached_of axum (next req app).0 bytes in
      let s = (get k get_at store).1 in
      let found = second_time again_at later again k app' store' store' c post' has_key' (
        get-put iter k c ttl put_at again_at s store' early
          (still ∙ ap (λ o. lookup k o.1.1.entries) ran)) in
      rw (ran, found) (refl, refl, ground arith, refl)

  lost :
      (get_at put_at : ℕ) (req : Request B) (k : String) (app : S)
      (store : InMemoryIdempotencyStore)
      → str_eq req.method "POST" ≡ true
      → key_of axum req ≡ some k
      → get k get_at store ≡ (none, store)
      → axum.is_success (next req app).0.status ≡ true
      → axum.to_bytes max_cacheable_body (next req app).0.body ≡ none
      → handle axum next iter ttl get_at put_at req (app, store)
        ≡ (record (next req app).0 { body = axum.empty_body }, ((next req app).1, store))
  unfolding handle with_key run_and_keep keep
  lost get_at put_at req k app store post has_key fresh success large = ground arith

  run_again :
      (get_at put_at : ℕ) (req : Request B) (k : String) (app : S)
      (store : InMemoryIdempotencyStore)
      → str_eq req.method "POST" ≡ true
      → key_of axum req ≡ some k
      → get k get_at store ≡ (none, store)
      → handle axum next iter ttl get_at put_at req (app, store)
        ≡ run_and_keep axum next iter ttl k put_at req (app, store)
  unfolding handle with_key
  run_again get_at put_at req k app store post has_key fresh = ground arith

  -- A response that cannot be kept, being larger than the limit, loses its body: the client gets the
  -- successful status with an empty body, though the application has done its work; nothing is kept,
  -- and a repetition of the request is run again.
  pub oversize_lost :
      (get_at put_at again_at later : ℕ) (req again : Request B) (k : String) (app : S)
      (store : InMemoryIdempotencyStore)
      → str_eq req.method "POST" ≡ true
      → str_eq again.method "POST" ≡ true
      → key_of axum req ≡ some k
      → key_of axum again ≡ some k
      → lookup k store.entries ≡ none
      → axum.is_success (next req app).0.status ≡ true
      → axum.to_bytes max_cacheable_body (next req app).0.body ≡ none
      → (handle axum next iter ttl get_at put_at req (app, store)
          ≡ (record (next req app).0 { body = axum.empty_body }, ((next req app).1, store)))
        × (handle axum next iter ttl again_at later again ((next req app).1, store)
            ≡ run_and_keep axum next iter ttl k later again ((next req app).1, store))
  oversize_lost get_at put_at again_at later req again k app store post post' has_key has_key' fresh
        success large =
      (
        lost get_at put_at req k app store post has_key (get_missing k get_at store fresh) success
            large,
        run_again again_at later again k _ store post' has_key'
            (get_missing k again_at store fresh),
      )
