-- ===== src/User/Tests.antt =====
-- Tests of crates/domain/src/user.rs, and the theorems at concrete values.
use kokkeak_api.User.{
  User, customer, from_code, display_name, from_i32, active, as_i32, suspended, as_str, technician,
}
use kokkeak_api.Prelude.{refl, some, [], ◌∷◌, ◌≡◌}
use kokkeak_api.User.Laws.{from_i32-as_i32, from_code-as_str}

abbrev sample : User
sample = record {
  id = 1;
  first_name = " Alice ";
  last_name = "Wonder";
  username = "alice";
  password_hash = "$argon2id$...";
  roles = customer ∷ [];
  permissions = [];
  status = active;
  created_at = 0;
  updated_at = 0;
}

display_name_assembles_first_and_last : display_name sample ≡ "Alice Wonder"
unfolding display_name
display_name_assembles_first_and_last = refl

display_name_handles_empty_fields :
    (display_name (record sample { first_name = "  " }) ≡ "Wonder")
    × (display_name (record sample { last_name = "" }) ≡ "Alice")
unfolding display_name
display_name_handles_empty_fields = (refl, refl)

from_code-as_str_example : from_code (as_str technician) ≡ some technician
from_code-as_str_example = from_code-as_str technician

from_i32-as_i32_example : from_i32 (as_i32 suspended) ≡ some suspended
from_i32-as_i32_example = from_i32-as_i32 suspended
