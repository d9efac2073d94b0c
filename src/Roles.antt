-- ===== src/Roles.antt =====
-- The administration of roles: crates/application/src/user_role.rs, the rows of
-- crates/domain/src/permission.rs, and the port of crates/domain/src/traits/user_role.rs. A GUID that
-- the rows carry is a text. A status, an `i32`, is a number that is not negative.
pub mod Groups
pub mod Updates
mod Tests
use kokkeak_api.Auth.Types.{RepoError, RepoResult, repo_ok, repo_err}
use kokkeak_api.Prelude.{String, [], if◌then◌else◌, ◌∷◌, Option, ℕ, ◌++◌, List, Bool, str_eq}
use kokkeak_api.Text.{is_empty}

pub record UserRolePermissionRow : Type 0 where
  pub user_role_guid : String
  pub user_role_code : String
  pub user_role_permission_guid : String
  pub user_role_permission_status : ℕ
  pub user_permission_guid : String
  pub user_permission_code : String

pub record UserRolePermission : Type 0 where
  pub user_role_permission_guid : String
  pub user_role_permission_status : ℕ
  pub user_permission_guid : String
  pub user_permission_code : String

pub record UserRoleWithPermissions : Type 0 where
  pub user_role_guid : String
  pub user_role_code : String
  pub permissions : List UserRolePermission

pub record PermissionUpdateRow : Type 0 where
  pub success : Bool
  pub code : String
  pub message : String
  pub user_role_permission_guid : Option String
  pub user_role_guid : String
  pub user_permission_guid : String
  pub user_role_permission_status : ℕ

pub record PermissionUpdateInput : Type 0 where
  pub user_role_guid : String
  pub user_permission_guid : String
  pub user_role_permission_status : ℕ

pub record UpdatePermissionsInput : Type 0 where
  pub updates : List PermissionUpdateInput
  pub update_by : Option String

-- The repository, over the state `R` of what stands behind it.
pub record UserRoleRepository (R : Type 0) : Type 0 where
  pub list_permissions : String → ℕ → R → RepoResult (List UserRolePermissionRow)
  pub update_role_permission :
      String → String → ℕ → Option String → R → RepoResult PermissionUpdateRow × R

-- A row without a permission stands for a role that has none.
pub row_to_permission : UserRolePermissionRow → List UserRolePermission
row_to_permission row =
    if is_empty row.user_permission_guid
    then []
    else record {
      user_role_permission_guid = row.user_role_permission_guid;
      user_role_permission_status = row.user_role_permission_status;
      user_permission_guid = row.user_permission_guid;
      user_permission_code = row.user_permission_code;
    }
      ∷ []

abbrev pub new_group : UserRolePermissionRow → UserRoleWithPermissions
new_group row = record {
  user_role_guid = row.user_role_guid;
  user_role_code = row.user_role_code;
  permissions = row_to_permission row;
}

abbrev pub extend : UserRolePermissionRow → UserRoleWithPermissions → UserRoleWithPermissions
extend row g = record g { permissions = g.permissions ++ row_to_permission row }

-- One turn of the loop: the row joins the last group, or starts one after it.
pub add_row : UserRolePermissionRow → List UserRoleWithPermissions → List UserRoleWithPermissions
add_row row [] = new_group row ∷ []
add_row row (g ∷ []) =
    if str_eq g.user_role_guid row.user_role_guid then extend row g ∷ [] else g ∷ new_group row ∷ []
add_row row (g ∷ g' ∷ gs) = g ∷ add_row row (g' ∷ gs)

pub add_rows :
    List UserRolePermissionRow → List UserRoleWithPermissions → List UserRoleWithPermissions
add_rows [] out = out
add_rows (row ∷ rows) out = add_rows rows (add_row row out)

pub group_by_role : List UserRolePermissionRow → List UserRoleWithPermissions
group_by_role rows = add_rows rows []

module _ {R : Type 0} (repo : UserRoleRepository R) where
  pub list_permissions : String → ℕ → R → RepoResult (List UserRoleWithPermissions)
  list_permissions mode caller_guid w = elim (repo.list_permissions mode caller_guid w) [
    | repo_ok flat ↦ repo_ok (group_by_role flat)
    | repo_err e ↦ repo_err e
  ]

  pub update_one : Option String → PermissionUpdateInput → R → RepoResult PermissionUpdateRow × R
  update_one by item w =
      repo.update_role_permission item.user_role_guid item.user_permission_guid
        item.user_role_permission_status by w

  -- The loop from the item on, with the rows pushed so far.
  pub update_from :
      Option String
      → List PermissionUpdateInput
      → List PermissionUpdateRow
      → R
      → RepoResult (List PermissionUpdateRow) × R
  update_from by [] out w = (repo_ok out, w)
  update_from by (item ∷ items) out w =
      let (r, w') = update_one by item w in
      elim r [
        | repo_ok row ↦ update_from by items (out ++ row ∷ []) w'
        | repo_err e ↦ (repo_err e, w')
      ]

  pub update_permissions : UpdatePermissionsInput → R → RepoResult (List PermissionUpdateRow) × R
  update_permissions input w = update_from input.update_by input.updates [] w
