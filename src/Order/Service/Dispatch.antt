-- ===== src/Order/Service/Dispatch.antt =====
-- When an order is announced: `create_order` of crates/application/src/order.rs.
use kokkeak_api.Order.Service.{
  OrderService, CreateOrderInput, create_order, order_of, publish, payload_of,
}
use kokkeak_api.Auth.Types.{RepoError, RepoResult, repo_ok, repo_err, repo_backend}
use kokkeak_api.Prelude.{ℕ, ◌≡◌, ◌⊎◌, refl, false, inl, inr, arith, Bool-cases}

module _ {W Q D F : Type 0} (sv : OrderService W Q D F) where
  -- The order is stored, or it is not announced.
  abbrev pub Created : ℕ → ℕ → CreateOrderInput D F → W × Q → Type 0
  Created now id input st =
      ((e : RepoError) × ((create_order sv now id input st).0 ≡ repo_err e)
        × ((create_order sv now id input st).1.1 ≡ st.1))
      ⊎ ((sv.is_negative input.total ≡ false)
          × ((sv.orders.insert (order_of sv now id input) st.0).0 ≡ repo_ok tt)
          × (create_order sv now id input st ≡ (
            repo_ok (order_of sv now id input),
            (
              (sv.orders.insert (order_of sv now id input) st.0).1,
              publish sv sv.queue (sv.to_vec (payload_of sv id input)) st.1,
            ),
          )))

  -- An order is announced on the queue only after the repository took it, and its caller gets it
  -- whether the announcement succeeds or not; an order with a negative total, or one that the
  -- repository refuses, is an error, and the queue hears nothing of it.
  pub create_order_cases :
      (now id : ℕ) (input : CreateOrderInput D F) (st : W × Q) → Created now id input st
  unfolding create_order
  create_order_cases now id input st = elim (Bool-cases (sv.is_negative input.total)) [
    | inl negative ↦ inl (repo_backend "total must be non-negative", ground arith, ground arith)
    | inr fine ↦ by_insert (sv.orders.insert (order_of sv now id input) st.0).0 fine refl
  ]
    where
      by_insert :
          (r : RepoResult (Unit {0}))
          → sv.is_negative input.total ≡ false
          → (sv.orders.insert (order_of sv now id input) st.0).0 ≡ r
          → Created now id input st
      by_insert (repo_err e) fine k = inl (e, ground arith, ground arith)
      by_insert (repo_ok _) fine k = inr (fine, k, ground arith)
