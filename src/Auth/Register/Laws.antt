-- ===== src/Auth/Register/Laws.antt =====
-- What a registration that succeeds has checked, for crates/application/src/auth.rs.
use kokkeak_api.Auth.{Service, AuthState, AuthOutcome, len}
use kokkeak_api.Auth.Register.{
  register, register_valid, register_invalid, register_hashed, open_account, insert_user, new_user,
  RegisterInput,
}
use kokkeak_api.Auth.Types.{
  ok, repo_ok, repo_err, not_found, conflict, repo_backend, public, bind-eq-ok, lift, RepoResult,
}
use kokkeak_api.Prelude.{◌≡◌, false, ℕ, arith, ◌≤◌, String, refl, ap, [], ◌∷◌}
use kokkeak_api.Text.{is_empty, trim}
use kokkeak_api.User.{User, active}

module _ {S T L J : Type 0} (sv : Service S T L J) where
  insert_user-eq-ok :
      (u : User) (st : AuthState S T L J) (x : Unit {0})
      → (insert_user sv u st).0 ≡ ok x
      → (sv.users.insert u st.users).0 ≡ repo_ok tt
  unfolding insert_user
  insert_user-eq-ok u st x h = of_answer (sv.users.insert u st.users).0 refl
    where
      of_answer :
          (r : RepoResult (Unit {0}))
          → (sv.users.insert u st.users).0 ≡ r
          → (sv.users.insert u st.users).0 ≡ repo_ok tt
      of_answer (repo_ok y) k = k
      of_answer (repo_err (not_found m)) k = ground arith
      of_answer (repo_err (conflict m)) k = ground arith
      of_answer (repo_err (repo_backend m)) k = ground arith

  open_account-user :
      (u : User) (st : AuthState S T L J) (out : AuthOutcome)
      → (open_account sv u st).0 ≡ ok out
      → out.user ≡ public u
  unfolding open_account
  open_account-user u st out h = ground arith

  register_valid-eq-ok :
      (id now : ℕ) (input : RegisterInput) (st : AuthState S T L J) (out : AuthOutcome)
      → (register_valid sv id now input st).0 ≡ ok out
      → (hash : String) × (sv.hasher.hash input.password ≡ ok hash)
        × ((sv.users.insert (new_user sv id now input hash) st.users).0 ≡ repo_ok tt)
        × (out.user ≡ public (new_user sv id now input hash))
  unfolding register_valid register_hashed
  register_valid-eq-ok id now input st out h =
      let (hash, hashed, h') =
        bind-eq-ok (lift (sv.hasher.hash input.password)) (register_hashed sv id now input) st out
          h in
      let user = new_user sv id now input hash in
      let (x, inserted, h'') =
        bind-eq-ok (insert_user sv user) (λ _. open_account sv user) st out h' in
      (
        hash,
        hashed,
        insert_user-eq-ok user st x inserted,
        open_account-user user (insert_user sv user st).1 out h'',
      )

  -- The user that is stored, and what is shown of it.
  abbrev pub Opened : ℕ → RegisterInput → String → User → AuthOutcome → Type 0
  Opened id input hash user out =
      (user.id ≡ id)
      × (user.username ≡ sv.to_lowercase (trim input.username))
      × (user.first_name ≡ trim input.first_name)
      × (user.last_name ≡ trim input.last_name)
      × (user.password_hash ≡ hash)
      × (user.roles ≡ input.role ∷ [])
      × (user.permissions ≡ [])
      × (user.status ≡ active)
      × (out.user.id ≡ id)
      × (out.user.username ≡ user.username)
      × (out.user.roles ≡ input.role ∷ [])
      × (out.user.permissions ≡ [])
      × (out.user.status ≡ active)

  new_user-Opened :
      (id now : ℕ) (input : RegisterInput) (hash : String) (out : AuthOutcome)
      → out.user ≡ public (new_user sv id now input hash)
      → Opened id input hash (new_user sv id now input hash) out
  unfolding public
  new_user-Opened id now input hash out shown = (
    refl,
    refl,
    refl,
    refl,
    refl,
    refl,
    refl,
    refl,
    ap (λ u. u.id) shown,
    ap (λ u. u.username) shown,
    ap (λ u. u.roles) shown,
    ap (λ u. u.permissions) shown,
    ap (λ u. u.status) shown,
  )

  -- A registration that returns an outcome had a user name and a first name that are not blank and a
  -- password of at least eight bytes; the password was hashed, and the repository has accepted the
  -- new user, under the trimmed names (the user name in lower case) and with that hash: an active one
  -- with the role of the input and no permission of its own, whom the outcome shows.
  pub register-eq-ok :
      (id now : ℕ) (input : RegisterInput) (st : AuthState S T L J) (out : AuthOutcome)
      → (register sv id now input st).0 ≡ ok out
      → (is_empty (sv.to_lowercase (trim input.username)) ≡ false)
        × (is_empty (trim input.first_name) ≡ false)
        × (8 ≤ len input.password)
        × (hash : String) × (sv.hasher.hash input.password ≡ ok hash)
        × (user : User) × ((sv.users.insert user st.users).0 ≡ repo_ok tt)
        × Opened id input hash user out
  unfolding register register_invalid
  register-eq-ok id now input st out h =
      let (hash, hashed, inserted, shown) =
        register_valid-eq-ok id now input st out (ground arith) in
      (
        ground arith,
        ground arith,
        ground arith,
        hash,
        hashed,
        new_user sv id now input hash,
        inserted,
        new_user-Opened id now input hash out shown,
      )
