-- ===== src/PermissionUsers/Tests.antt =====
-- Tests of the pages of crates/application/src/permission.rs, and their theorems at three rows.
use kokkeak_api.PermissionUsers.{PermissionUserListRow}
use kokkeak_api.PermissionUsers.Pages.{IsAscending}
use kokkeak_api.PermissionUsers.Follow.{follow, follow_all}
use kokkeak_api.Prelude.{◌≡◌, refl, none, true, false, [], ◌∷◌, List, arith, String}

abbrev row : String → PermissionUserListRow
row email = record {
  user_guid = "";
  full_name = email;
  email = email;
  role_codes = "SUPER_ADMIN";
  role_names = "Super Admin";
  has_permission = true;
  has_override = false;
  user_status = 1;
  user_username_status = 1;
  user_create_at = 0;
  user_update_at = 0;
}

abbrev three : List PermissionUserListRow
three = row "a@x" ∷ row "b@x" ∷ row "c@x" ∷ []

three-IsAscending : IsAscending three
three-IsAscending = (refl, (refl, refl, (refl, refl, tt)), (refl, (refl, refl, tt), (refl, tt, tt)))

follow_all_example : follow 3 2 none three ≡ three
follow_all_example =
    follow_all 3 2 three three-IsAscending (omega arith) (omega arith) (omega arith)
