-- ===== src/Roles/Updates.antt =====
-- `update_permissions` of crates/application/src/user_role.rs when an item fails.
use mathlib.Core.List.{append-nil, append_assoc}
use kokkeak_api.Prelude.{[], ◌∷◌, Option, String, List, ◌≡◌, ◌++◌, ap, sym, ◌∙◌}
use kokkeak_api.Roles.{
  UserRoleRepository, update_from, update_permissions, UpdatePermissionsInput, PermissionUpdateRow,
  PermissionUpdateInput, update_one,
}
use kokkeak_api.Auth.Types.{RepoError, repo_ok, repo_err, RepoResult}

module _ {R : Type 0} (repo : UserRoleRepository R) where
  -- What the items do one after the other: the rows they give, if none fails, and the state.
  pub data Applied (by : Option String)
      : List PermissionUpdateInput → R → List PermissionUpdateRow → R → Type 0 where
    nothing : (w : R) → Applied by [] w [] w
    one :
        (item : PermissionUpdateInput) (items : List PermissionUpdateInput)
        (row : PermissionUpdateRow) (rows : List PermissionUpdateRow) (w w' w'' : R)
        → update_one repo by item w ≡ (repo_ok row, w')
        → Applied by items w' rows w''
        → Applied by (item ∷ items) w (row ∷ rows) w''

  -- What `update_from` does with the answer for an item.
  abbrev next :
      Option String
      → List PermissionUpdateInput
      → List PermissionUpdateRow
      → RepoResult PermissionUpdateRow × R
      → RepoResult (List PermissionUpdateRow) × R
  next by items out p = elim p.0 [
    | repo_ok row ↦ update_from repo by items (out ++ row ∷ []) p.1
    | repo_err e ↦ (repo_err e, p.1)
  ]

  update_from-append :
      (by : Option String) (items rest : List PermissionUpdateInput)
      (rows out : List PermissionUpdateRow) (w w' : R)
      → Applied by items w rows w'
      → update_from repo by (items ++ rest) out w ≡ update_from repo by rest (out ++ rows) w'
  unfolding update_from
  update_from-append by [] rest [] out w w' (nothing _) =
      ap (λ o. update_from repo by rest o w) (sym (append-nil out))
  update_from-append by (item ∷ items) rest (row ∷ rows) out w w' (one _ _ _ _ _ w1 _ step later) =
      ap (next by (items ++ rest) out) step
      ∙ update_from-append by items rest rows (out ++ row ∷ []) w1 w' later
      ∙ ap (λ o. update_from repo by rest o w') (append_assoc out (row ∷ []) rows)
  update_from-append by [] rest (row ∷ rows) out w w' none_done = elim none_done [ ]
  update_from-append by (item ∷ items) rest [] out w w' none_done = elim none_done [ ]

  -- A batch whose items all succeed gives one row for each, in the order of the items.
  update_permissions-all :
      (input : UpdatePermissionsInput) (rows : List PermissionUpdateRow) (w w' : R)
      → Applied input.update_by input.updates w rows w'
      → update_permissions repo input w ≡ (repo_ok rows, w')
  unfolding update_permissions update_from
  update_permissions-all input rows w w' all =
      ap (λ l. update_from repo input.update_by l [] w) (sym (append-nil input.updates))
      ∙ update_from-append input.update_by input.updates [] rows [] w w' all

  -- A batch is not atomic. When an item fails, after items that succeeded, the caller gets the error
  -- alone; what the items before it wrote stays written, and the items after it are not tried.
  pub update_permissions-partial :
      (by : Option String) (done rest : List PermissionUpdateInput) (item : PermissionUpdateInput)
      (rows : List PermissionUpdateRow) (w w' w'' : R) (e : RepoError)
      → Applied by done w rows w'
      → update_one repo by item w' ≡ (repo_err e, w'')
      → update_permissions repo (record { updates = done ++ item ∷ rest; update_by = by }) w
        ≡ (repo_err e, w'')
  unfolding update_permissions update_from
  update_permissions-partial by done rest item rows w w' w'' e before fails =
      update_from-append by done (item ∷ rest) rows [] w w' before ∙ ap (next by rest rows) fails
