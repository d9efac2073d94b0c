-- ===== src/PermissionUsers.antt =====
-- The permissions of users, for their administration: crates/application/src/permission.rs, the
-- rows of crates/domain/src/permission.rs, and the port of crates/domain/src/traits/permission.rs.
-- A GUID that the rows carry is a text; `uuid_text` is the text of a UUID. A status, an `i32`, is
-- a number that is not negative.
pub mod Pages
pub mod Follow
mod Tests
use Prim.Native.String
use Prim.Native.String.{compare}
use text.Mathlib.Text.{is_lt}
use kokkeak_api.Auth.Types.{RepoError, RepoResult, repo_ok, repo_err}
use kokkeak_api.Prelude.{
  ℕ, ◌+◌, ◌-◌, min, ltb, none, some, drop, take, length, map, suc, [], if◌then◌else◌, ◌∷◌, Option,
  List, Bool, String, ◌&&◌, str_eq, ◌||◌,
}

pub record PermissionUserListRow : Type 0 where
  pub user_guid : String
  pub full_name : String
  pub email : String
  pub role_codes : String
  pub role_names : String
  pub has_permission : Bool
  pub has_override : Bool
  pub user_status : ℕ
  pub user_username_status : ℕ
  pub user_create_at : ℕ
  pub user_update_at : ℕ

pub record PermissionUserDetailRow : Type 0 where
  pub user_guid : String
  pub full_name : String
  pub email : String
  pub user_role_name : String
  pub user_permission_guid : String
  pub user_permission_code : String
  pub user_permission_name : String
  pub has_override : Bool
  pub override_effect : String
  pub effective_status : Bool

pub record PermissionUserGroupEntry : Type 0 where
  pub user_permission_guid : String
  pub user_permission_code : String
  pub has_override : Bool
  pub effective_status : Bool

pub record PermissionUserGroup : Type 0 where
  pub user_guid : String
  pub full_name : String
  pub email : String
  pub user_role_name : String
  pub permissions : List PermissionUserGroupEntry

pub record PermissionUserListPage : Type 0 where
  pub items : List PermissionUserListRow
  pub next_cursor : Option String

-- Whether the first text is after the second, as `str`'s order on the bytes has it.
abbrev pub after_text : String → String → Bool
after_text s t = is_lt (compare t s)

-- `position(…).unwrap_or(rows.len())`
pub position : String → List PermissionUserListRow → ℕ
position cursor [] = 0
position cursor (r ∷ rs) =
    let rest = position cursor rs in if after_text r.email cursor then 0 else suc rest

pub start_of : Option String → List PermissionUserListRow → ℕ
start_of none rows = 0
start_of (some cursor) rows = position cursor rows

pub last_email : List PermissionUserListRow → Option String
last_email [] = none
last_email (r ∷ []) = some r.email
last_email (r ∷ s ∷ rs) = last_email (s ∷ rs)

-- The end of the page, before the rows' end.
abbrev pub stop_of : ℕ → ℕ → List PermissionUserListRow → ℕ
stop_of start limit rows = min (start + limit) (length rows)

pub apply_cursor_pagination :
    List PermissionUserListRow → Option String → ℕ → PermissionUserListPage
apply_cursor_pagination rows after limit =
    let start = start_of after rows in
    let stop = stop_of start limit rows in
    let items = take (stop - start) (drop start rows) in
    record {
      items = items;
      next_cursor = if ltb stop (length rows) then last_email items else none;
    }

pub first_text : (PermissionUserDetailRow → String) → List PermissionUserDetailRow → String
first_text f [] = ""
first_text f (r ∷ rs) = f r

pub entry : PermissionUserDetailRow → PermissionUserGroupEntry
entry r = record {
  user_permission_guid = r.user_permission_guid;
  user_permission_code = r.user_permission_code;
  has_override = r.has_override;
  effective_status = r.effective_status;
}

pub group_permission_user_rows : List PermissionUserDetailRow → PermissionUserGroup
group_permission_user_rows rows = record {
  user_guid = first_text (λ r. r.user_guid) rows;
  full_name = first_text (λ r. r.full_name) rows;
  email = first_text (λ r. r.email) rows;
  user_role_name = first_text (λ r. r.user_role_name) rows;
  permissions = map entry rows;
}

pub record PermissionOverrideUpdateItem : Type 0 where
  pub user_guid : String
  pub permission_guid : String
  pub effect : String
  pub reason : Option String
  pub assigned_by : Option String
  pub status : Option ℕ

pub record PermissionOverrideUpdateResult : Type 0 where
  pub success : Bool
  pub code : String
  pub message : String
  pub user_permission_override_guid : Option String
  pub user_permission_override_user_guid : String
  pub user_permission_override_permission_guid : String
  pub user_permission_override_effect : String
  pub user_permission_override_status : ℕ

pub is_success : PermissionOverrideUpdateResult → Bool
is_success r = r.success && (str_eq r.code "UPDATED" || str_eq r.code "CREATED")

pub record PermissionUserRepository (S : Type 0) : Type 0 where
  pub list_permission_users : ℕ → S → RepoResult (List PermissionUserListRow)
  pub find_permission_user_detail : ℕ → ℕ → S → RepoResult (List PermissionUserDetailRow)
  pub update_permission_overrides :
      List PermissionOverrideUpdateItem
      → String
      → S
      → RepoResult (List PermissionOverrideUpdateResult) × S

module _ {S : Type 0} (repo : PermissionUserRepository S) where
  pub list_users : Option String → ℕ → ℕ → S → RepoResult PermissionUserListPage
  list_users after limit actor st = elim (repo.list_permission_users actor st) [
    | repo_ok rows ↦ repo_ok (apply_cursor_pagination rows after limit)
    | repo_err e ↦ repo_err e
  ]

  pub get_permission_user_group : ℕ → ℕ → S → RepoResult PermissionUserGroup
  get_permission_user_group user_guid actor st =
      elim (repo.find_permission_user_detail user_guid actor st) [
        | repo_ok rows ↦ repo_ok (group_permission_user_rows rows)
        | repo_err e ↦ repo_err e
      ]

  pub get_permission_user_detail : ℕ → ℕ → S → RepoResult (List PermissionUserDetailRow)
  get_permission_user_detail user_guid actor st =
      repo.find_permission_user_detail user_guid actor st

  pub update_overrides :
      (ℕ → String)
      → List PermissionOverrideUpdateItem
      → ℕ
      → S
      → RepoResult (List PermissionOverrideUpdateResult) × S
  update_overrides uuid_text items actor st =
      repo.update_permission_overrides items (uuid_text actor) st
