-- ===== src/Auth/Sample.antt =====
-- A concrete service of crates/application/src/auth.rs for the tests: one user, sessions as a list
-- of identifiers, a limiter that allows two attempts in a minute, tokens that are counted.
use kokkeak_api.User.{User, active, customer}
use kokkeak_api.Auth.Types.{
  repo_ok, ok, UserRepository, SessionStore, RepoResult, SessionInfo, PasswordHasherPort, Claims,
  JwtIssuerPort, public, err, refresh, token_expired,
}
use kokkeak_api.Prelude.{
  none, some, true, false, [], if◌then◌else◌, ◌∷◌, String, List, ℕ, Bool, ◌==◌, str_eq, Option, suc,
  ◌&&◌,
}
use kokkeak_api.Auth.{AuthOutcome, Service, AuthState}
use kokkeak_api.Auth.Login.{LoginInput}
use kokkeak_api.RateLimit.{InMemoryLoginRateLimiter, with_params}
use kokkeak_api.Auth.Login.Lockout.{in_memory_limiter}
use kokkeak_api.RateLimit.History.{play_all, failed, Attempt}

abbrev pub alice : User
alice = record {
  id = 7;
  username = "alice";
  password_hash = "#secret";
  first_name = "";
  last_name = "";
  roles = customer ∷ [];
  permissions = [];
  status = active;
  created_at = 0;
  updated_at = 0;
}

abbrev pub find_alice : String → RepoResult (Option User)
find_alice name = if str_eq name "alice" then repo_ok (some alice) else repo_ok none

abbrev pub users : UserRepository (Unit {0})
users = record {
  find_by_id = λ id _. if id == 7 then repo_ok (some alice) else repo_ok none;
  find_by_username = λ name _. find_alice name;
  insert = λ _ s. (repo_ok tt, s);
}

abbrev pub session : ℕ → String → SessionInfo
session id jti = record { jti = jti; user_id = id; scope = "web"; device = ""; ip = "" }

-- The sessions that are open, by identifier.
abbrev pub Open : Type 0
Open = List String

abbrev pub is_open : String → Open → Bool
is_open jti [] = false
is_open jti (j ∷ t) = if str_eq jti j then true else is_open jti t

abbrev pub close : String → Open → Open
close jti [] = []
close jti (j ∷ t) = let rest = close jti t in if str_eq jti j then rest else j ∷ rest

abbrev pub sessions : SessionStore Open
sessions = record {
  create = λ c t. (ok tt, c.jti ∷ t);
  get = λ id jti t. ok (if is_open jti t then some (session id jti) else none);
  revoke = λ id jti t. (ok tt, close jti t);
  revoke_all = λ id t. (ok 0, []);
  list = λ id t. ok [];
}

abbrev pub claims_of : String → Claims
claims_of jti = record {
  sub = 7;
  iss = "kokkeak";
  iat = 0;
  exp = 900;
  kind = refresh;
  roles = customer ∷ [];
  scope = "web";
  jti = jti;
}

-- The issuer counts the tokens that it signs; it knows the refresh tokens "old" and "new".
abbrev pub jwt : JwtIssuerPort ℕ
jwt = record {
  issue_access = λ id roles scope j. (ok ("access", "access"), suc j);
  issue_refresh = λ id roles scope j. (ok ("new", "new"), suc j);
  verify = λ token.
      if str_eq token "old"
      then ok (claims_of "old")
      else if str_eq token "new"
      then ok (claims_of "new")
      else err token_expired;
  access_ttl_secs = 900;
  refresh_ttl_secs = 86400;
}

abbrev pub hasher : PasswordHasherPort
hasher = record {
  hash = λ password. ok password;
  verify = λ password hash. str_eq password "secret" && str_eq hash "#secret";
  dummy_hash = "#dummy";
}

abbrev pub service : Service (Unit {0}) Open InMemoryLoginRateLimiter ℕ
service = record {
  users = users;
  sessions = sessions;
  login_rl = in_memory_limiter 106 106 106 106;
  jwt = jwt;
  hasher = hasher;
  to_lowercase = λ s. s;
  show = λ e. "backend";
}

abbrev pub state : InMemoryLoginRateLimiter → AuthState (Unit {0}) Open InMemoryLoginRateLimiter ℕ
state l = record { users = tt; sessions = "old" ∷ []; limiter = l; issuer = 0; audit = [] }

abbrev pub attempt : String → LoginInput
attempt password = record {
  username = "alice";
  password = password;
  scope = "web";
  ip = some "1.2.3.4";
}

abbrev pub fresh : AuthState (Unit {0}) Open InMemoryLoginRateLimiter ℕ
fresh = state (with_params 60 2)

abbrev pub out_of_alice : AuthOutcome
out_of_alice = record {
  user = public alice;
  tokens = record {
    access_token = "access";
    refresh_token = "new";
    access_ttl_secs = 900;
    refresh_ttl_secs = 86400;
    token_type = "Bearer";
  };
}

abbrev pub two_attempts : List Attempt
two_attempts = failed "alice" "1.2.3.4" 106 106 ∷ failed "alice" "1.2.3.4" 106 106 ∷ []

abbrev pub two_tries : InMemoryLoginRateLimiter
two_tries = play_all two_attempts (with_params 60 2)
