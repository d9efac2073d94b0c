-- ===== src/Auth/Register/Tests.antt =====
-- Tests of `register` in crates/application/src/auth.rs, and its theorem at a concrete input.
use kokkeak_api.Auth.Sample.{service, out_of_alice, fresh}
use kokkeak_api.Auth.Types.{ok, public, repo_ok}
use kokkeak_api.Auth.{AuthOutcome, issue_pair, issue_second, bearer, len}
use kokkeak_api.Prelude.{refl, false, ◌≡◌, ◌≤◌, String}
use kokkeak_api.Auth.Register.{
  RegisterInput, register, new_user, register_valid, register_hashed, insert_user, open_account,
}
use kokkeak_api.Text.{is_empty, trim}
use kokkeak_api.User.{customer, User}
use kokkeak_api.Auth.Register.Laws.{register-eq-ok, Opened}

abbrev input : RegisterInput
input = record {
  username = "bob";
  password = "correct horse";
  first_name = "Bob";
  last_name = "";
  role = customer;
}

abbrev bob : AuthOutcome
bob = record {
  user = public (new_user service 8 5 input "correct horse");
  tokens = out_of_alice.tokens;
}

registered : (register service 8 5 input fresh).0 ≡ ok bob
unfolding register register_valid register_hashed insert_user open_account issue_pair issue_second
    bearer trim
registered = refl

register-eq-ok_example :
    (is_empty (trim "bob") ≡ false)
    × (is_empty (trim "Bob") ≡ false)
    × (8 ≤ len "correct horse")
    × (hash : String) × (service.hasher.hash "correct horse" ≡ ok hash)
    × (user : User) × ((service.users.insert user tt).0 ≡ repo_ok tt)
    × Opened service 8 input hash user bob
register-eq-ok_example = register-eq-ok service 8 5 input fresh bob registered
