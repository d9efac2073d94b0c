-- ===== src/Order/Service/Pages.antt =====
-- The pages of `list_for_customer` of crates/application/src/order.rs.
use mathlib.Core.Path.{subst}
use kokkeak_api.Order.Service.{
  OrderService, list_for_customer, list_by, parse_cursor, OrderListPage, page_of, clamp, paged,
}
use kokkeak_api.Order.{Order}
use kokkeak_api.Auth.Types.{RepoResult, repo_ok, repo_err}
use kokkeak_api.Prelude.{
  ◌==◌, ℕ, ◌≡◌, ◌⊎◌, none, List, Option, length, String, ◌≤◌, refl, some, inl, inr, Bool-cases, ◌%◌,
  arith, u32_mod,
}
use kokkeak_api.Text.{is_empty}

module _ {W Q D F : Type 0} (sv : OrderService W Q D F) where
  page_of-IsBounded :
      (limit : ℕ) (items : List (Order D))
      → length items ≤ limit
      → limit ≤ 200
      → ((page_of sv limit items).next_cursor ≡ none) ⊎ (length items ≡ limit)
  unfolding page_of
  page_of-IsBounded limit items few most = elim (Bool-cases (length items % u32_mod == limit)) [
    | inl full ↦ inr (ground arith)
    | inr short ↦ inl (ground arith)
  ]

  -- What the repository listed for between 1 and 200 orders, with a cursor only if the page is full.
  abbrev pub IsPage : ℕ → Option String → W → OrderListPage D → Type 0
  IsPage customer_id after w page =
      (n : ℕ) × (1 ≤ n)
      × (n ≤ 200)
      × (sv.orders.list_for_customer customer_id after n w ≡ repo_ok page.items)
      × (length page.items ≤ n)
      × ((page.next_cursor ≡ none) ⊎ (length page.items ≡ n))

  -- A page has at most 200 orders whatever the client asks for, and at least one is asked for; a cursor
  -- is given only with a full page, so that a client that follows the cursors stops at the first page
  -- that is not full. An empty cursor is refused, and nothing is read. (For a repository that lists no
  -- more orders than it is asked for.)
  pub pages_bounded :
      (customer_id limit : ℕ) (after : Option String) (w : W) (page : OrderListPage D)
      → ((id n : ℕ) (cursor : Option String) (items : List (Order D))
          → sv.orders.list_for_customer id cursor n w ≡ repo_ok items
          → length items ≤ n)
      → list_for_customer sv customer_id after limit w ≡ repo_ok page
      → IsPage customer_id after w page
  unfolding list_for_customer list_by parse_cursor page_of
  pages_bounded customer_id limit after w page few listed = by_cursor after listed
    where
      by_items :
          (cursor : Option String) (r : RepoResult (List (Order D)))
          → sv.orders.list_for_customer customer_id cursor (clamp 1 200 limit) w ≡ r
          → paged sv (clamp 1 200 limit) r ≡ repo_ok page
          → IsPage customer_id cursor w page
      by_items cursor (repo_err e) asked h = ground arith
      by_items cursor (repo_ok items) asked h =
          let same : page_of sv (clamp 1 200 limit) items ≡ page = ground arith in
          let short = few customer_id (clamp 1 200 limit) cursor items asked in
          subst (λ p. IsPage customer_id cursor w p) same
            (
              clamp 1 200 limit,
              omega arith,
              omega arith,
              asked,
              short,
              page_of-IsBounded (clamp 1 200 limit) items short (omega arith),
            )

      by_cursor :
          (c : Option String)
          → list_by sv sv.orders.list_for_customer customer_id c limit w ≡ repo_ok page
          → IsPage customer_id c w page
      by_cursor none h = by_items none _ refl h
      by_cursor (some s) h = elim (Bool-cases (is_empty s)) [
        | inl empty ↦ ground arith
        | inr text ↦ by_items (some s) _ refl (ground arith)
      ]
