-- ===== src/Http/Replay.antt =====
-- The replay of responses under an idempotency key: crates/api/src/middleware/idempotency.rs over the
-- store in memory of crates/infra/src/idempotency.rs (crates/domain/src/idempotency.rs). The
-- readings of the clock, and the order in which the store's hash map iterates, are arguments.
pub mod Laws
mod Tests
use kokkeak_api.Http.{Request, Response, Axum, Next}
use kokkeak_api.Dict.{Dict, lookup, insert, erase}
use kokkeak_api.Duration.{Duration}
use kokkeak_api.Text.{trim, is_empty}
use kokkeak_api.Prelude.{
  ℕ, String, Option, List, none, some, if◌then◌else◌, str_eq, ltb, leb, length, [], ◌∷◌, take, ◌*◌,
  ◌/◌, ◌+◌,
}

pub record CachedResponse : Type 0 where
  pub status : ℕ
  pub content_type : String
  pub body : List ℕ

pub record Entry : Type 0 where
  pub response : CachedResponse
  pub expires_at : ℕ

pub record InMemoryIdempotencyStore : Type 0 where
  pub entries : Dict Entry
  pub max_entries : ℕ

abbrev pub new : ℕ → InMemoryIdempotencyStore
new max_entries = record { entries = []; max_entries = max_entries }

-- `IdempotencyStore::get`: an expired entry is removed.
pub get_entry :
    Option Entry
    → String
    → ℕ
    → InMemoryIdempotencyStore
    → Option CachedResponse × InMemoryIdempotencyStore
get_entry none key now s = (none, s)
get_entry (some e) key now s =
    if ltb now e.expires_at
    then (some e.response, s)
    else (none, record s { entries = erase key s.entries })

pub get : String → ℕ → InMemoryIdempotencyStore → Option CachedResponse × InMemoryIdempotencyStore
get key now s = get_entry (lookup key s.entries) key now s

abbrev keys : Dict Entry → List String
keys [] = []
keys ((k, e) ∷ d) = k ∷ keys d

abbrev erase_all : List String → Dict Entry → Dict Entry
erase_all [] d = d
erase_all (k ∷ ks) d = erase_all ks (erase k d)

-- A full store drops half of its entries, the ones that come first in the map's order.
pub room : (List String → List String) → InMemoryIdempotencyStore → Dict Entry
room iter s =
    let n = length s.entries in
    if leb s.max_entries n
    then erase_all (take (n / 2) (iter (keys s.entries))) s.entries
    else s.entries

pub put :
    (List String → List String)
    → String
    → CachedResponse
    → Duration
    → ℕ
    → InMemoryIdempotencyStore
    → InMemoryIdempotencyStore
put iter key response ttl now s = record s {
  entries = insert key (record { response = response; expires_at = now + ttl }) (room iter s);
}

abbrev pub max_cacheable_body : ℕ
max_cacheable_body = 1024 * 1024

module _ {B : Type 0} (axum : Axum B) where
  -- The text of a header, if it has one.
  abbrev pub header_text : String → Dict (List ℕ) → Option String
  header_text name headers = elim (lookup name headers) [ none ↦ none | some v ↦ axum.to_str v ]

  abbrev pub non_empty : Option String → Option String
  non_empty none = none
  non_empty (some s) = let t = trim s in if is_empty t then none else some t

  pub key_of : Request B → Option String
  key_of req = non_empty (header_text "idempotency-key" req.headers)

  abbrev or_value : ℕ → Option ℕ → ℕ
  or_value d none = d
  or_value d (some n) = n

  abbrev or_json : Option String → String
  or_json none = "application/json"
  or_json (some s) = s

  abbrev set_content_type : Option (List ℕ) → Dict (List ℕ) → Dict (List ℕ)
  set_content_type none headers = headers
  set_content_type (some v) headers = insert "content-type" v headers

  -- `true` in a header value.
  abbrev true_value : List ℕ
  true_value = 116 ∷ 114 ∷ 117 ∷ 101 ∷ []

  pub replay : CachedResponse → Response B
  replay cached = record {
    status = or_value 200 (axum.from_u16 cached.status);
    headers =
        insert "idempotency-replayed" true_value
          (set_content_type (axum.from_str cached.content_type) []);
    body = axum.from_bytes cached.body;
  }

  pub cached_of : Response B → List ℕ → CachedResponse
  cached_of response bytes = record {
    status = response.status;
    content_type = or_json (header_text "content-type" response.headers);
    body = bytes;
  }

  module _ {S : Type 0} (next : Next B S) (iter : List String → List String) (ttl : Duration) where
    -- What is done with the response of the application.
    pub keep :
        String
        → ℕ
        → Response B
        → Option (List ℕ)
        → InMemoryIdempotencyStore
        → Response B × InMemoryIdempotencyStore
    keep key put_at response none store = (record response { body = axum.empty_body }, store)
    keep key put_at response (some bytes) store = (
      record response { body = axum.from_bytes bytes },
      put iter key (cached_of response bytes) ttl put_at store,
    )

    pub run_and_keep :
        String
        → ℕ
        → Request B
        → S × InMemoryIdempotencyStore
        → Response B × (S × InMemoryIdempotencyStore)
    run_and_keep key put_at req (app, store) =
        let (response, app') = next req app in
        if axum.is_success response.status
        then (let (response', store') =
              keep key put_at response (axum.to_bytes max_cacheable_body response.body) store in
            (response', (app', store')))
        else (response, (app', store))

    pub with_key :
        String
        → ℕ
        → ℕ
        → Request B
        → S × InMemoryIdempotencyStore
        → Response B × (S × InMemoryIdempotencyStore)
    with_key key get_at put_at req (app, store) =
        let (cached, store') = get key get_at store in
        elim cached [
          | some c ↦ (replay c, (app, store'))
          | none ↦ run_and_keep key put_at req (app, store')
        ]

    pub pass :
        Request B → S × InMemoryIdempotencyStore → Response B × (S × InMemoryIdempotencyStore)
    pass req (app, store) = let (response, app') = next req app in (response, (app', store))

    pub handle :
        ℕ
        → ℕ
        → Request B
        → S × InMemoryIdempotencyStore
        → Response B × (S × InMemoryIdempotencyStore)
    handle get_at put_at req st =
        if str_eq req.method "POST"
        then elim (key_of req) [ none ↦ pass req st | some key ↦ with_key key get_at put_at req st ]
        else pass req st
