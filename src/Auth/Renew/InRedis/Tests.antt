-- ===== src/Auth/Renew/InRedis/Tests.antt =====
-- Tests of crates/infra/src/auth/session_store.rs, at a server that is a map of texts.
use kokkeak_api.Dict.{Dict, lookup, insert, erase, lookup-insert, lookup-erase}
use kokkeak_api.Effect.{good}
use kokkeak_api.Auth.{Service, AuthState, issue_pair, issue_second, bearer}
use kokkeak_api.Auth.Renew.{
  renew, continue, check_session, refresh_session, refresh_found, refresh_user, rotate, finish,
}
use kokkeak_api.Auth.Types.{ok, err, invalid_token}
use kokkeak_api.Auth.Sample.{users, jwt, hasher, service, fresh, claims_of, out_of_alice}
use kokkeak_api.Auth.Sessions.{
  revoke_all, revoke_round, RedisSessionStore, Json, session_key, create, get, revoke,
  redis_sessions, session_value, info_of, revoke_round,
}
use kokkeak_api.Auth.Renew.InRedis.{Keeps, renew_once_in_redis}
use kokkeak_api.Permission.Checker.{PermissionRedis}
use kokkeak_api.RateLimit.{InMemoryLoginRateLimiter, with_params}
use kokkeak_api.User.{can_authenticate}
use kokkeak_api.Prelude.{
  ℕ, String, [], ◌∷◌, some, refl, true, if◌then◌else◌, arith, map, List, ◌≡◌, str_eq, ◌≢◌, eq_refl,
  eq_iff, sym, ◌∙◌,
}
use kokkeak_api.Loop.{scan_loop}

abbrev erase_all : List String → Dict String → Dict String
erase_all [] d = d
erase_all (k ∷ ks) d = erase_all ks (erase k d)

abbrev redis : PermissionRedis (Dict String)
redis = record {
  get = λ k r. good (lookup k r);
  set_ex = λ k v ttl r. (good tt, insert k v r);
  scan = λ c pattern r. good (0, map (λ e. e.0) r);
  del = λ ks r. (good 1, erase_all ks r);
}

-- A session's text is its identifier.
abbrev identifier : List (String × String) → String
identifier [] = ""
identifier ((k, v) ∷ fields) = v

abbrev json : Json String
json = record {
  text_of = identifier;
  parse = λ s. good s;
  text_field = λ v k. if str_eq k "scope" then some "web" else some v;
}

abbrev store : RedisSessionStore (Dict String) String
store = record {
  redis = redis;
  acquire = λ r. good tt;
  json = json;
  key_prefix = "k:session";
  uuid_text = λ n. "u";
}

redis-Keeps : Keeps redis
redis-Keeps = record {
  deleted = λ k r n h. ground (arith, lookup-erase k k r, eq_refl k);
  others = λ k j v secs r differ. ground (arith, lookup-insert k j v r, eq_iff k j);
}

abbrev in_redis : Service (Unit {0}) (Dict String) InMemoryLoginRateLimiter ℕ
in_redis = record {
  users = users;
  sessions = redis_sessions store (λ id r. (ok 0, r)) (λ id r. ok []);
  login_rl = service.login_rl;
  jwt = jwt;
  hasher = hasher;
  to_lowercase = λ s. s;
  show = λ e. "backend";
}

abbrev one_session : AuthState (Unit {0}) (Dict String) InMemoryLoginRateLimiter ℕ
one_session = record {
  users = tt;
  sessions = (session_key store 7 "old", "old") ∷ [];
  limiter = fresh.limiter;
  issuer = 0;
  audit = [];
}

written :
    (create store
      (record { jti = "new"; user_id = 7; scope = "web"; device = ""; ip = ""; ttl_secs = 60 })
      []).1
    ≡ (session_key store 7 "new", "new") ∷ []
unfolding create session_value insert
written = refl

renewed : (renew in_redis "old" one_session).0 ≡ ok out_of_alice
unfolding renew continue check_session refresh_session refresh_found refresh_user rotate finish
    issue_pair issue_second bearer can_authenticate with_params redis_sessions create get revoke
    lookup insert erase session_key info_of session_value
renewed = refl

renew_once_in_redis_example :
    (renew in_redis "old" (renew in_redis "old" one_session).1).0
    ≡ err (invalid_token "session revoked")
unfolding redis_sessions revoke
renew_once_in_redis_example =
    renew_once_in_redis store (λ r. refl) redis-Keeps (λ m n. refl) in_redis (λ id r. (ok 0, r))
      (λ id r. ok []) "old" (claims_of "old") one_session out_of_alice refl
      (λ id roles scope j p h. differ p h) refl refl renewed
  where
    differ : (p : String × String) → ok ("new", "new") ≡ ok p → p.1 ≢ "old"
    differ p h e =
        let same : p.1 ≡ "new" = cc in
        let read : str_eq "new" "old" ≡ true = (eq_iff "new" "old").1 (sym same ∙ e) in ground arith

all_revoked : revoke_all store 1 7 one_session.sessions ≡ some (ok 1, [])
unfolding revoke_all revoke_round scan_loop erase session_key
all_revoked = refl
