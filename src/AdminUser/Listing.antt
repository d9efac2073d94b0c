-- ===== src/AdminUser/Listing.antt =====
-- The pages of `list_users_paging` of crates/application/src/admin_user.rs.
use kokkeak_api.AdminUser.{AdminUserService, list_users_paging, normalized, as_i32}
use kokkeak_api.AdminUser.Types.{
  AdminUserListPagingInput, AdminUserListPagingPage, non_negative, negative,
}
use kokkeak_api.Auth.Types.{RepoResult, repo_ok, repo_err}
use kokkeak_api.Prelude.{ℕ, ◌≡◌, refl, ◌<◌, ◌^◌, max, ◌≤◌, ◌-◌, arith, ap, sym, ◌∙◌}

module _ {W D Row : Type 0} (sv : AdminUserService W D Row) where
  -- Whatever a client asks for, the repository is asked for a page from the first on, of between 1 and
  -- 100 users, and the answer has that size and the repository's users. The number of the page comes
  -- back as it was asked for below 2^31, and as a negative number from there on.
  pub listed_page :
      (actor : ℕ) (input : AdminUserListPagingInput) (w : W) (page : AdminUserListPagingPage Row)
      → list_users_paging sv actor input w ≡ repo_ok page
      → input.page < 2 ^ 32
      → (found : AdminUserListPagingPage Row) × (query : AdminUserListPagingInput)
        × (sv.users.list_users_paging query actor w ≡ repo_ok found)
        × (query.page ≡ max input.page 1)
        × (1 ≤ query.page_size)
        × (query.page_size ≤ 100)
        × (page.items ≡ found.items)
        × (page.page_size ≡ non_negative query.page_size)
        × (input.page < 2 ^ 31 → page.page ≡ non_negative query.page)
        × (2 ^ 31 ≤ input.page → page.page ≡ negative (2 ^ 32 - input.page))
  unfolding list_users_paging normalized as_i32
  listed_page actor input w page listed small =
      by_answer (sv.users.list_users_paging (normalized input) actor w) refl
    where
      by_answer :
          (r : RepoResult (AdminUserListPagingPage Row))
          → sv.users.list_users_paging (normalized input) actor w ≡ r
          → (found : AdminUserListPagingPage Row) × (query : AdminUserListPagingInput)
            × (sv.users.list_users_paging query actor w ≡ repo_ok found)
            × (query.page ≡ max input.page 1)
            × (1 ≤ query.page_size)
            × (query.page_size ≤ 100)
            × (page.items ≡ found.items)
            × (page.page_size ≡ non_negative query.page_size)
            × (input.page < 2 ^ 31 → page.page ≡ non_negative query.page)
            × (2 ^ 31 ≤ input.page → page.page ≡ negative (2 ^ 32 - input.page))
      by_answer (repo_err e) answered = ground arith
      by_answer (repo_ok found) answered =
          let shown : AdminUserListPagingPage Row = record found {
            page = as_i32 (normalized input).page;
            page_size = as_i32 (normalized input).page_size;
          } in
          let same : shown ≡ page = ground arith in
          (
            found,
            normalized input,
            answered,
            refl,
            omega arith,
            omega arith,
            ap (λ p. p.items) (sym same),
            ap (λ p. p.page_size) (sym same) ∙ ground arith,
            λ below. ap (λ p. p.page) (sym same) ∙ ground arith,
            λ above. ap (λ p. p.page) (sym same) ∙ ground arith,
          )
