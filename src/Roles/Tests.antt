-- ===== src/Roles/Tests.antt =====
-- Tests of crates/application/src/user_role.rs, at a repository that counts its writes and knows one
-- role.
use kokkeak_api.Roles.{
  UserRolePermissionRow, PermissionUpdateInput, PermissionUpdateRow, UserRoleRepository,
  group_by_role,
}
use kokkeak_api.Roles.Groups.{granted, flatten, flatten-group_by_role}
use kokkeak_api.Prelude.{ℕ, String, List, none, [], ◌∷◌, ◌≡◌, true, if◌then◌else◌, str_eq, ◌+◌}
use kokkeak_api.Auth.Types.{repo_err, repo_ok, not_found}

abbrev row : String → String → UserRolePermissionRow
row role permission = record {
  user_role_guid = role;
  user_role_code = role;
  user_role_permission_guid = permission;
  user_role_permission_status = 1;
  user_permission_guid = permission;
  user_permission_code = permission;
}

abbrev sample_rows : List UserRolePermissionRow
sample_rows = row "a" "p" ∷ row "a" "q" ∷ row "b" "" ∷ row "a" "r" ∷ []

flatten-group_by_role_example : flatten (group_by_role sample_rows) ≡ granted sample_rows
flatten-group_by_role_example = flatten-group_by_role sample_rows

abbrev updated : String → String → PermissionUpdateRow
updated role permission = record {
  success = true;
  code = "UPDATED";
  message = "";
  user_role_permission_guid = none;
  user_role_guid = role;
  user_permission_guid = permission;
  user_role_permission_status = 1;
}

abbrev counting : UserRoleRepository ℕ
counting = record {
  list_permissions = λ mode caller w. repo_ok [];
  update_role_permission = λ role permission status by w.
      if str_eq role "a"
      then (repo_ok (updated role permission), w + 1)
      else (repo_err (not_found role), w);
}

abbrev item : String → PermissionUpdateInput
item role = record {
  user_role_guid = role;
  user_permission_guid = "p";
  user_role_permission_status = 1;
}
