-- ===== src/Auth/Renew/InRedis.antt =====
-- The Redis store of crates/infra/src/auth/session_store.rs behind the refresh of
-- crates/application/src/auth.rs.
mod Tests
use mathlib.Core.Path.{subst}
use kokkeak_api.Effect.{good, Outcome-cases}
use kokkeak_api.Auth.{Service, AuthState, AuthOutcome}
use kokkeak_api.Auth.Renew.{renew}
use kokkeak_api.Auth.Renew.Once.{renew_once}
use kokkeak_api.Auth.Types.{
  Result, ok, err, Claims, CreateSession, SessionInfo, SessionStore, invalid_token,
}
use kokkeak_api.Auth.Sessions.{
  RedisSessionStore, session_key, create, get, revoke, redis_sessions, session_value,
}
use kokkeak_api.Auth.Sessions.Keys.{session_key-ne, count_chars}
use kokkeak_api.Permission.Checker.{PermissionRedis}
use kokkeak_api.Prelude.{ℕ, String, [], ◌∷◌, none, inl, inr, ◌≡◌, List, ◌≢◌, arith, sym}
use kokkeak_api.User.{Role}

-- What is assumed of the server: a key that was deleted is not there, and a write leaves the other
-- keys as they are.
pub record Keeps {R : Type 0} (redis : PermissionRedis R) : Type 0 where
  pub deleted :
      (k : String) (r : R) (n : ℕ)
      → (redis.del (k ∷ []) r).0 ≡ good n
      → redis.get k (redis.del (k ∷ []) r).1 ≡ good none
  pub others :
      (k j v : String) (secs : ℕ) (r : R)
      → k ≢ j
      → redis.get j (redis.set_ex k v secs r).1 ≡ redis.get j r

abbrev Forgets : {R : Type 0} → SessionStore R → Type 0
Forgets p =
    (id : ℕ) (jti : String) (r : _)
    → (p.revoke id jti r).0 ≡ ok tt
    → p.get id jti (p.revoke id jti r).1 ≡ ok none

abbrev Undisturbed : {R : Type 0} → SessionStore R → Type 0
Undisturbed p =
    (id : ℕ) (jti : String) (c : CreateSession) (r : _)
    → c.jti ≢ jti
    → p.get id jti (p.create c r).1 ≡ p.get id jti r

abbrev Revokes : {R : Type 0} → Claims → R → SessionStore R → Type 0
Revokes claims r p = (p.revoke claims.sub claims.jti r).0 ≡ ok tt

module _ {R V : Type 0} (store : RedisSessionStore R V)
    (connected : (r : R) → store.acquire r ≡ good tt) (keeps : Keeps store.redis)
    (one_length : (m n : ℕ)
      → count_chars (store.uuid_text m) ≡ count_chars (store.uuid_text n)) where
  revoke_forgets :
      (id : ℕ) (jti : String) (r : R)
      → (revoke store id jti r).0 ≡ ok tt
      → get store id jti (revoke store id jti r).1 ≡ ok none
  unfolding revoke get
  revoke_forgets id jti r h =
      elim (Outcome-cases (store.redis.del (session_key store id jti ∷ []) r).0) [
        | inl (n, k) ↦ ground (
          arith,
          connected r,
          connected (store.redis.del (session_key store id jti ∷ []) r).1,
          keeps.deleted (session_key store id jti) r n k,
        )
        | inr (e, k) ↦ ground (arith, connected r)
      ]

  create_disturbs_none :
      (id : ℕ) (jti : String) (c : CreateSession) (r : R)
      → c.jti ≢ jti
      → get store id jti (create store c r).1 ≡ get store id jti r
  unfolding create get
  create_disturbs_none id jti c r differ = ground (
    arith,
    connected r,
    connected
        (store.redis.set_ex (session_key store c.user_id c.jti) (session_value store c) c.ttl_secs
          r).1,
    keeps.others (session_key store c.user_id c.jti) (session_key store id jti)
        (session_value store c) c.ttl_secs r
        (session_key-ne store c.user_id id c.jti jti one_length differ),
  )

  -- Over the Redis store a refresh token works once. With a server that can be reached, on which a
  -- deleted key is gone and a write leaves the other keys as they are, with texts of users of one
  -- length, and with an issuer that gives no refresh token the identifier of this one: after a refresh
  -- that succeeded and whose revocation succeeded, a second refresh with the same token fails as
  -- revoked.
  pub renew_once_in_redis :
      {S L J : Type 0} (sv : Service S R L J) (revokes : ℕ → R → Result ℕ × R)
      (lists : ℕ → R → Result (List SessionInfo)) (token : String) (claims : Claims)
      (st : AuthState S R L J) (out : AuthOutcome)
      → sv.sessions ≡ redis_sessions store revokes lists
      → ((id : ℕ) (roles : List Role) (scope : String) (j : J) (p : String × String)
          → (sv.jwt.issue_refresh id roles scope j).0 ≡ ok p
          → p.1 ≢ claims.jti)
      → sv.jwt.verify token ≡ ok claims
      → (revoke store claims.sub claims.jti st.sessions).0 ≡ ok tt
      → (renew sv token st).0 ≡ ok out
      → (renew sv token (renew sv token st).1).0 ≡ err (invalid_token "session revoked")
  unfolding redis_sessions
  renew_once_in_redis sv revokes lists token claims st out is_redis fresh v revoked h =
      (renew_once sv token claims st out (subst Forgets (sym is_redis) revoke_forgets)
        (subst Undisturbed (sym is_redis) create_disturbs_none) fresh v
        (subst (Revokes claims st.sessions) (sym is_redis) revoked) h).0
