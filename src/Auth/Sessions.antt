-- ===== src/Auth/Sessions.antt =====
-- The store of sessions: crates/infra/src/auth/session_store.rs. The Redis server, over its state `R`,
-- and the crate `serde_json` are parameters. The loops of `revoke_all` and `list`, which end when the
-- server says so, run on fuel. The time stamp of a session is left out, as in Auth/Types.
pub mod Keys
pub mod Ends
use Prim.Native.String
use kokkeak_api.Effect.{Outcome, good, bad}
use kokkeak_api.Auth.Types.{Result, ok, err, AuthError, CreateSession, SessionInfo, SessionStore}
use kokkeak_api.Auth.Types
use kokkeak_api.Permission.Checker.{PermissionRedis}
use kokkeak_api.Prelude.{
  ℕ, String, ◌==◌, [], ◌∷◌, none, some, zero, suc, if◌then◌else◌, List, Option, ◌+◌, ◌++◌, inl, inr,
  ◌⊎◌,
}
use kokkeak_api.Loop.{scan_loop}

-- `text_of` writes an object with the texts given and the time; `text_field` is `v[…].as_str()`.
pub record Json (V : Type 0) : Type 0 where
  pub text_of : List (String × String) → String
  pub parse : String → Outcome String V
  pub text_field : V → String → Option String

pub record RedisSessionStore (R V : Type 0) : Type 0 where
  pub redis : PermissionRedis R
  pub acquire : R → Outcome String (Unit {0})
  pub json : Json V
  pub key_prefix : String
  pub uuid_text : ℕ → String

module _ {R V : Type 0} (store : RedisSessionStore R V) where
  abbrev pub key_for : String → String → String
  key_for user rest =
      String.◌++◌ store.key_prefix (String.◌++◌ ":" (String.◌++◌ user (String.◌++◌ ":" rest)))

  unfoldable pub session_key : ℕ → String → String
  session_key user_id jti = key_for (store.uuid_text user_id) jti

  pub session_pattern : ℕ → String
  session_pattern user_id = key_for (store.uuid_text user_id) "*"

  -- `map_err` to a text after what was being done.
  abbrev pub backend_of {ℓ} : {A : Type ℓ} → String → String → Result A
  backend_of what e = err (Types.backend (String.◌++◌ what e))

  unfoldable pub session_value : CreateSession → String
  session_value c = store.json.text_of (
      ("jti", c.jti)
      ∷ ("user_id", store.uuid_text c.user_id)
      ∷ ("scope", c.scope)
      ∷ ("device", c.device)
      ∷ ("ip", c.ip)
      ∷ [])

  abbrev pub set_result : Outcome String (Unit {0}) × R → Result (Unit {0}) × R
  set_result (good u, r) = (ok tt, r)
  set_result (bad e, r) = (backend_of "redis set: " e, r)

  unfoldable pub create : CreateSession → R → Result (Unit {0}) × R
  create c r = elim (store.acquire r) [
    | bad e ↦ (backend_of "redis pool: " e, r)
    | good u ↦
        set_result (store.redis.set_ex (session_key c.user_id c.jti) (session_value c) c.ttl_secs r)
  ]

  abbrev or_empty : Option String → String
  or_empty none = ""
  or_empty (some s) = s

  unfoldable pub info_of : ℕ → V → SessionInfo
  info_of user_id v = record {
    jti = or_empty (store.json.text_field v "jti");
    user_id = user_id;
    scope = or_empty (store.json.text_field v "scope");
    device = or_empty (store.json.text_field v "device");
    ip = or_empty (store.json.text_field v "ip");
  }

  abbrev pub parsed : ℕ → Outcome String (Option String) → Result (Option SessionInfo)
  parsed user_id (bad e) = backend_of "redis get: " e
  parsed user_id (good none) = ok none
  parsed user_id (good (some s)) = elim (store.json.parse s) [
    | bad e ↦ backend_of "session json: " e
    | good v ↦ ok (some (info_of user_id v))
  ]

  unfoldable pub get : ℕ → String → R → Result (Option SessionInfo)
  get user_id jti r = elim (store.acquire r) [
    | bad e ↦ backend_of "redis pool: " e
    | good u ↦ parsed user_id (store.redis.get (session_key user_id jti) r)
  ]

  abbrev pub del_result : Outcome String ℕ × R → Result (Unit {0}) × R
  del_result (good n, r) = (ok tt, r)
  del_result (bad e, r) = (backend_of "redis del: " e, r)

  unfoldable pub revoke : ℕ → String → R → Result (Unit {0}) × R
  revoke user_id jti r = elim (store.acquire r) [
    | bad e ↦ (backend_of "redis pool: " e, r)
    | good u ↦ del_result (store.redis.del (session_key user_id jti ∷ []) r)
  ]

  abbrev pub del_keys : List String → R → Outcome String ℕ × R
  del_keys [] r = (good 0, r)
  del_keys (k ∷ ks) r = store.redis.del (k ∷ ks) r

  -- A round of the loop of `revoke_all`, with what was deleted so far.
  unfoldable pub revoke_round : String → ℕ → ℕ × R → (Result ℕ × R) ⊎ (ℕ × (ℕ × R))
  revoke_round pattern cursor (deleted, r) = elim (store.redis.scan cursor pattern r) [
    | bad e ↦ inl (backend_of "redis scan: " e, r)
    | good (next, keys) ↦
        let (removed, r') = del_keys keys r in
        elim removed [
          | bad e ↦ inl (backend_of "redis del: " e, r')
          | good n ↦ if next == 0 then inl (ok (deleted + n), r') else inr (next, (deleted + n, r'))
        ]
  ]

  unfoldable pub revoke_all : ℕ → ℕ → R → Option (Result ℕ × R)
  revoke_all fuel user_id r = elim (store.acquire r) [
    | bad e ↦ some (backend_of "redis pool: " e, r)
    | good u ↦ scan_loop (revoke_round (session_pattern user_id)) fuel 0 (0, r)
  ]

  -- The sessions of some keys; one that is gone or cannot be read is left out.
  abbrev readable : ℕ → Option String → List SessionInfo
  readable user_id none = []
  readable user_id (some s) = elim (store.json.parse s) [
    | bad e ↦ []
    | good v ↦ info_of user_id v ∷ []
  ]

  pub sessions_of : ℕ → List String → R → Result (List SessionInfo)
  sessions_of user_id [] r = ok []
  sessions_of user_id (k ∷ ks) r = elim (store.redis.get k r) [
    | bad e ↦ backend_of "redis get: " e
    | good o ↦ elim (sessions_of user_id ks r) [
      | err e ↦ err e
      | ok rest ↦ ok (readable user_id o ++ rest)
    ]
  ]

  -- A round of the loop of `list`, with the sessions so far.
  pub list_round : ℕ → R → ℕ → List SessionInfo → Result (List SessionInfo) ⊎ (ℕ × List SessionInfo)
  list_round user_id r cursor sessions =
      elim (store.redis.scan cursor (session_pattern user_id) r) [
        | bad e ↦ inl (backend_of "redis scan: " e)
        | good (next, keys) ↦ elim (sessions_of user_id keys r) [
          | err e ↦ inl (err e)
          | ok more ↦
              if next == 0 then inl (ok (sessions ++ more)) else inr (next, sessions ++ more)
        ]
      ]

  pub list : ℕ → ℕ → R → Option (Result (List SessionInfo))
  list fuel user_id r = elim (store.acquire r) [
    | bad e ↦ some (backend_of "redis pool: " e)
    | good u ↦ scan_loop (list_round user_id r) fuel 0 []
  ]

  -- The port of the service. What the service does not use of it when it renews is passed in.
  unfoldable pub redis_sessions :
      (ℕ → R → Result ℕ × R) → (ℕ → R → Result (List SessionInfo)) → SessionStore R
  redis_sessions revokes lists = record {
    create = create;
    get = get;
    revoke = revoke;
    revoke_all = revokes;
    list = lists;
  }
