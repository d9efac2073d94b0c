-- ===== src/Roles/Groups.antt =====
-- What `group_by_role` of crates/application/src/user_role.rs makes of the rows.
use mathlib.Core.List.{append-nil, append_assoc}
use kokkeak_api.Prelude.{
  refl, [], ◌∷◌, String, List, ◌≡◌, ◌++◌, sym, ◌∙◌, eq_iff, ap, true, arith, Bool, not, ◌&&◌,
  str_eq, if◌then◌else◌,
}
use kokkeak_api.Text.{is_empty_eq}
use kokkeak_api.Roles.{
  add_rows, group_by_role, add_row, UserRolePermission, UserRoleWithPermissions,
  UserRolePermissionRow, row_to_permission, extend, new_group,
}

abbrev tagged : String → List UserRolePermission → List (String × UserRolePermission)
tagged guid [] = []
tagged guid (p ∷ ps) = (guid, p) ∷ tagged guid ps

-- The permissions that the rows carry, each with the role's GUID: one for each row that names a
-- permission, with the fields of the row.
pub granted : List UserRolePermissionRow → List (String × UserRolePermission)
granted [] = []
granted (row ∷ rows) =
    if str_eq row.user_permission_guid ""
    then granted rows
    else (
      row.user_role_guid,
      record {
        user_role_permission_guid = row.user_role_permission_guid;
        user_role_permission_status = row.user_role_permission_status;
        user_permission_guid = row.user_permission_guid;
        user_permission_code = row.user_permission_code;
      },
    )
      ∷ granted rows

granted_cons :
    (row : UserRolePermissionRow) (rows : List UserRolePermissionRow)
    → granted (row ∷ rows) ≡ tagged row.user_role_guid (row_to_permission row) ++ granted rows
unfolding granted row_to_permission
granted_cons row rows = ground (arith, is_empty_eq row.user_permission_guid)

pub flatten : List UserRoleWithPermissions → List (String × UserRolePermission)
flatten [] = []
flatten (g ∷ gs) = tagged g.user_role_guid g.permissions ++ flatten gs

tagged-append :
    (guid : String) (ps qs : List UserRolePermission)
    → tagged guid (ps ++ qs) ≡ tagged guid ps ++ tagged guid qs
tagged-append guid [] qs = refl
tagged-append guid (p ∷ ps) qs = rw (tagged-append guid ps qs) refl

flatten-extend :
    (row : UserRolePermissionRow) (g : UserRoleWithPermissions)
    → g.user_role_guid ≡ row.user_role_guid
    → flatten (extend row g ∷ [])
      ≡ flatten (g ∷ []) ++ tagged row.user_role_guid (row_to_permission row)
unfolding flatten row_to_permission
flatten-extend row g same =
    rw
      (
        append-nil (tagged g.user_role_guid (g.permissions ++ row_to_permission row)),
        append-nil (tagged g.user_role_guid g.permissions),
        sym same,
      )
      (tagged-append g.user_role_guid g.permissions (row_to_permission row))

flatten-new_group :
    (row : UserRolePermissionRow) (g : UserRoleWithPermissions)
    → flatten (g ∷ new_group row ∷ [])
      ≡ flatten (g ∷ []) ++ tagged row.user_role_guid (row_to_permission row)
unfolding flatten
flatten-new_group row g =
    rw
      (
        append-nil (tagged row.user_role_guid (row_to_permission row)),
        append-nil (tagged g.user_role_guid g.permissions),
      )
      refl

flatten-add_row :
    (row : UserRolePermissionRow) (out : List UserRoleWithPermissions)
    → flatten (add_row row out) ≡ flatten out ++ tagged row.user_role_guid (row_to_permission row)
unfolding flatten add_row
flatten-add_row row [] = append-nil (tagged row.user_role_guid (row_to_permission row))
flatten-add_row row (g ∷ []) = ground (
  arith,
  flatten-extend row g,
  flatten-new_group row g,
  eq_iff g.user_role_guid row.user_role_guid,
)
flatten-add_row row (g ∷ g' ∷ gs) =
    ap (λ l. tagged g.user_role_guid g.permissions ++ l) (flatten-add_row row (g' ∷ gs))
    ∙ sym (append_assoc (tagged g.user_role_guid g.permissions) _ _)

flatten-add_rows :
    (rows : List UserRolePermissionRow) (out : List UserRoleWithPermissions)
    → flatten (add_rows rows out) ≡ flatten out ++ granted rows
unfolding add_rows granted
flatten-add_rows [] out = sym (append-nil (flatten out))
flatten-add_rows (row ∷ rows) out =
    flatten-add_rows rows (add_row row out)
    ∙ ap (λ l. l ++ granted rows) (flatten-add_row row out)
    ∙ append_assoc (flatten out) _ _
    ∙ ap (flatten out ++◌) (sym (granted_cons row rows))

-- Grouping loses no permission, makes up none, changes no order and moves none to another role: the
-- groups, read back one permission at a time with the role of its group, are the rows that name a
-- permission, with the GUIDs, the status and the code of the row.
pub flatten-group_by_role :
    (rows : List UserRolePermissionRow) → flatten (group_by_role rows) ≡ granted rows
unfolding group_by_role flatten
flatten-group_by_role rows = flatten-add_rows rows []

-- The role of the first group is not `guid`.
abbrev starts_apart : String → List UserRoleWithPermissions → Bool
starts_apart guid [] = true
starts_apart guid (g ∷ gs) = not (str_eq guid g.user_role_guid)

-- No two neighbours are groups of one role.
apart : List UserRoleWithPermissions → Bool
apart [] = true
apart (g ∷ gs) = starts_apart g.user_role_guid gs && apart gs

starts_apart-add_row :
    (guid : String) (row : UserRolePermissionRow) (g : UserRoleWithPermissions)
    (gs : List UserRoleWithPermissions)
    → starts_apart guid (g ∷ gs) ≡ true
    → starts_apart guid (add_row row (g ∷ gs)) ≡ true
unfolding add_row
starts_apart-add_row guid row g [] h = ground arith
starts_apart-add_row guid row g (g' ∷ gs) h = h

apart-add_row :
    (row : UserRolePermissionRow) (out : List UserRoleWithPermissions)
    → apart out ≡ true
    → apart (add_row row out) ≡ true
unfolding apart add_row
apart-add_row row [] h = refl
apart-add_row row (g ∷ []) h = ground arith
apart-add_row row (g ∷ g' ∷ gs) h =
    ground (arith, starts_apart-add_row g.user_role_guid row g' gs, apart-add_row row (g' ∷ gs))

apart-add_rows :
    (rows : List UserRolePermissionRow) (out : List UserRoleWithPermissions)
    → apart out ≡ true
    → apart (add_rows rows out) ≡ true
unfolding add_rows
apart-add_rows [] out h = h
apart-add_rows (row ∷ rows) out h = apart-add_rows rows (add_row row out) (apart-add_row row out h)

-- Every row of a run of rows of one role comes into one group: no two neighbouring groups have the
-- same role. (Rows that are not ordered by role may give a role several groups.)
apart-group_by_role : (rows : List UserRolePermissionRow) → apart (group_by_role rows) ≡ true
unfolding group_by_role apart
apart-group_by_role rows = apart-add_rows rows [] refl
