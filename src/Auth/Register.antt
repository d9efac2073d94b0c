-- ===== src/Auth/Register.antt =====
-- `register` of crates/application/src/auth.rs.
pub mod Laws
mod Tests
use kokkeak_api.Auth.{Service, issue_pair, Method, AuthOutcome, len, log, event, create_session}
use kokkeak_api.Prelude.{some, [], if◌then◌else◌, ◌∷◌, String, ℕ, ltb}
use kokkeak_api.User.{User, Role, active}
use kokkeak_api.Text.{trim, is_empty}
use kokkeak_api.Auth.Types.{
  ok, ◌>>=◌, ◌>>◌, repo_ok, repo_err, conflict, ◌>>◌, raise, validation, username_taken, backend,
  lift, pure, public,
}

pub record RegisterInput : Type 0 where
  pub username : String
  pub password : String
  pub first_name : String
  pub last_name : String
  pub role : Role

module _ {S T L J : Type 0} (sv : Service S T L J) where
  register_invalid : String → String → Method S T L J AuthOutcome
  register_invalid username message = do
    log (record (event "auth.register.failure") {
      username = some username;
      reason = some "validation";
    })
    raise (validation message)

  insert_user : User → Method S T L J (Unit {0})
  insert_user u st =
      let (r, users) = sv.users.insert u st.users in
      let st' = record st { users = users } in
      elim r [
        | repo_ok x ↦ (ok tt, st')
        | repo_err e ↦ elim e [
          | conflict m ↦
              (log (record (event "auth.register.failure") {
                username = some u.username;
                reason = some "username_taken";
              })
                  >> raise username_taken)
                st'
          | other ↦
              (log (record (event "auth.register.failure") {
                username = some u.username;
                reason = some "backend_error";
              })
                  >> raise (backend (sv.show other)))
                st'
        ]
      ]

  -- The user that `register` stores: `id` and `now` are the fresh UUID and the time.
  abbrev new_user : ℕ → ℕ → RegisterInput → String → User
  new_user id now input password_hash = record {
    id = id;
    first_name = trim input.first_name;
    last_name = trim input.last_name;
    username = sv.to_lowercase (trim input.username);
    password_hash = password_hash;
    roles = input.role ∷ [];
    permissions = [];
    status = active;
    created_at = now;
    updated_at = now;
  }

  -- From the stored user to the outcome: the tokens and the first session.
  open_account : User → Method S T L J AuthOutcome
  unfolding issue_pair
  open_account user = do
    pair ← issue_pair sv user.id user.roles "mobile"
    create_session sv (record {
      jti = pair.1;
      user_id = user.id;
      scope = "mobile";
      device = "register";
      ip = "";
      ttl_secs = sv.jwt.refresh_ttl_secs;
    })
    log (record (event "auth.register.success") {
      username = some user.username;
      user_id = some user.id;
    })
    pure (record { user = public user; tokens = pair.0 })

  register_hashed : ℕ → ℕ → RegisterInput → String → Method S T L J AuthOutcome
  unfolding insert_user open_account
  register_hashed id now input password_hash =
      let user = new_user id now input password_hash in insert_user user >> open_account user

  register_valid : ℕ → ℕ → RegisterInput → Method S T L J AuthOutcome
  register_valid id now input =
      lift (sv.hasher.hash input.password) >>= register_hashed id now input

  pub register : ℕ → ℕ → RegisterInput → Method S T L J AuthOutcome
  unfolding register_invalid register_valid
  register id now input =
      let username = sv.to_lowercase (trim input.username) in
      if is_empty username
      then register_invalid username "username must not be empty"
      else if ltb (len input.password) 8
      then register_invalid username "password must be at least 8 characters"
      else if is_empty (trim input.first_name)
      then register_invalid username "first_name must not be empty"
      else register_valid id now input
