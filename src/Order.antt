-- ===== src/Order.antt =====
-- Orders: crates/domain/src/order.rs, and the port of crates/domain/src/traits/order.rs by which
-- the payment service reads them. `D` is the decimal number type of the crate rust_decimal.
pub mod Service
use kokkeak_api.Prelude.{ℕ, String, true, false, Option, Bool}

pub data OrderStatus : Type 0 where
  pending active completed closed cancelled : OrderStatus

pub as_str : OrderStatus → String
as_str pending = "pending"
as_str active = "active"
as_str completed = "completed"
as_str closed = "closed"
as_str cancelled = "cancelled"

pub record Order (D : Type 0) : Type 0 where
  pub id : ℕ
  pub service_code : String
  pub customer_id : ℕ
  pub technician_id : Option ℕ
  pub description : String
  pub address : String
  pub total : D
  pub status : OrderStatus
  pub created_at : ℕ
  pub updated_at : ℕ

pub is_cancellable : {D : Type 0} → Order D → Bool
is_cancellable o = elim o.status [
  | pending ↦ true
  | active ↦ true
  | completed ↦ false
  | closed ↦ false
  | cancelled ↦ false
]
