-- ===== src/Order/Service.antt =====
-- The order service: crates/application/src/order.rs, with the cursors of
-- crates/domain/src/pagination.rs and the ports of crates/domain/src/traits/order.rs and
-- crates/domain/src/queue.rs. The clock's reading and the identifier that a method draws are
-- arguments; `D` is the decimal number type of the crate rust_decimal and `F` is `f64`; the texts that
-- serde_json and base64 write are parameters.
pub mod Dispatch
pub mod Pages
mod Tests
use Prim.Native.String
use kokkeak_api.Auth.Types.{RepoError, RepoResult, repo_ok, repo_err, repo_backend}
use kokkeak_api.Effect.{Outcome, Method, good, bad}
use kokkeak_api.Order.{Order, OrderStatus}
use kokkeak_api.Prelude.{
  ℕ, none, some, [], if◌then◌else◌, ◌∷◌, List, min, Option, String, Bool, max, length, ◌%◌, u32_mod,
  ◌==◌,
}
use kokkeak_api.Text.{is_empty}

pub record OrderListPage (D : Type 0) : Type 0 where
  pub items : List (Order D)
  pub next_cursor : Option String

pub record CreateOrderInput (D F : Type 0) : Type 0 where
  pub service_code : String
  pub customer_id : ℕ
  pub description : String
  pub address : String
  pub total : D
  pub order_lat : Option F
  pub order_lon : Option F

-- What `order.dispatch` carries.
pub record DispatchPayload (F : Type 0) : Type 0 where
  pub order_id : ℕ
  pub service_code : String
  pub customer_id : ℕ
  pub lat : Option F
  pub lon : Option F

pub record OrderRepository (W D : Type 0) : Type 0 where
  pub list_for_customer : ℕ → Option String → ℕ → W → RepoResult (List (Order D))
  pub list_for_technician : ℕ → Option String → ℕ → W → RepoResult (List (Order D))
  pub insert : Order D → W → RepoResult (Unit {0}) × W

-- The queue, over its state.
pub record QueuePort (Q : Type 0) : Type 0 where
  pub publish : String → List ℕ → Q → Outcome String (Unit {0}) × Q

pub record OrderService (W Q D F : Type 0) : Type 0 where
  pub orders : OrderRepository W D
  pub queue : Option (QueuePort Q)
  pub is_negative : D → Bool
  -- `Cursor::encode` of the time after which the next page begins, and `serde_json::to_vec`.
  pub encode_after : ℕ → Option String
  pub to_vec : DispatchPayload F → Option (List ℕ)

-- `s.parse::<Cursor>()`, with the service's error.
pub parse_cursor : Option String → RepoResult (Option String)
parse_cursor none = repo_ok none
parse_cursor (some s) =
    if is_empty s then repo_err (repo_backend "invalid cursor: empty cursor") else repo_ok (some s)

abbrev pub clamp : ℕ → ℕ → ℕ → ℕ
clamp low high n = min (max n low) high

abbrev pub last_created : {D : Type 0} → List (Order D) → Option ℕ
last_created [] = none
last_created (o ∷ []) = some o.created_at
last_created (o ∷ o' ∷ os) = last_created (o' ∷ os)

module _ {W Q D F : Type 0} (sv : OrderService W Q D F) where
  abbrev encoded_after : Option ℕ → Option String
  encoded_after none = none
  encoded_after (some t) = sv.encode_after t

  pub page_of : ℕ → List (Order D) → OrderListPage D
  page_of limit items = record {
    items = items;
    next_cursor =
        if length items % u32_mod == limit then encoded_after (last_created items) else none;
  }

  abbrev paged : ℕ → RepoResult (List (Order D)) → RepoResult (OrderListPage D)
  paged limit (repo_ok items) = repo_ok (page_of limit items)
  paged limit (repo_err e) = repo_err e

  -- The two listings share their code but for the query.
  pub list_by :
      (ℕ → Option String → ℕ → W → RepoResult (List (Order D)))
      → ℕ
      → Option String
      → ℕ
      → W
      → RepoResult (OrderListPage D)
  list_by query id after limit w = elim (parse_cursor after) [
    | repo_err e ↦ repo_err e
    | repo_ok cursor ↦ paged (clamp 1 200 limit) (query id cursor (clamp 1 200 limit) w)
  ]

  pub list_for_customer : ℕ → Option String → ℕ → W → RepoResult (OrderListPage D)
  list_for_customer customer_id after limit w =
      list_by sv.orders.list_for_customer customer_id after limit w

  pub list_for_technician : ℕ → Option String → ℕ → W → RepoResult (OrderListPage D)
  list_for_technician technician_id after limit w =
      list_by sv.orders.list_for_technician technician_id after limit w

  pub order_of : ℕ → ℕ → CreateOrderInput D F → Order D
  order_of now id input = record {
    id = id;
    service_code = input.service_code;
    customer_id = input.customer_id;
    technician_id = none;
    description = input.description;
    address = input.address;
    total = input.total;
    status = OrderStatus.pending;
    created_at = now;
    updated_at = now;
  }

  abbrev payload_of : ℕ → CreateOrderInput D F → DispatchPayload F
  payload_of id input = record {
    order_id = id;
    service_code = input.service_code;
    customer_id = input.customer_id;
    lat = input.order_lat;
    lon = input.order_lon;
  }

  -- A failed publication is only logged.
  pub publish : Option (QueuePort Q) → Option (List ℕ) → Q → Q
  publish none payload q = q
  publish (some port) none q = q
  publish (some port) (some s) q = (port.publish "order.dispatch" s q).1

  pub create_order : ℕ → ℕ → CreateOrderInput D F → W × Q → RepoResult (Order D) × (W × Q)
  create_order now id input (w, q) =
      if sv.is_negative input.total
      then (repo_err (repo_backend "total must be non-negative"), (w, q))
      else (let (r, w') = sv.orders.insert (order_of now id input) w in
          elim r [
            | repo_err e ↦ (repo_err e, (w', q))
            | repo_ok _ ↦ (
              repo_ok (order_of now id input),
              (w', publish sv.queue (sv.to_vec (payload_of id input)) q),
            )
          ])
