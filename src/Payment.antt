-- ===== src/Payment.antt =====
-- The payment service: crates/application/src/payment.rs. The clock's reading and the identifiers
-- that a method draws are arguments; amounts are numbers of the crate rust_decimal.
pub mod Types
pub mod Split
pub mod Laws
pub mod Confirm
pub mod Create
pub mod Money
pub mod Mssql
mod Sample
mod Tests
use Prim.Native.String
use kokkeak_api.Prelude.{
  ℕ, ltb, min, max, none, some, true, false, [], if◌then◌else◌, ◌∷◌, Option, List, String, ◌==◌,
  Bool,
}
use kokkeak_api.Order.{Order}
use kokkeak_api.Payment.Types.{
  PaymentRepository, Decimals, Answer, Method, ◌>>=◌, ◌>>◌, pure, raise, read, write, some_or, good,
  bad, not_found, backend, Payment, pending, payout_pending, repo_err, captured, Payout,
  invalid_amount, PaymentStatus, Commission, order_not_payable, paid, PayoutStatus, status_str,
  authorized, failed, refunded,
}
use kokkeak_api.Payment.Split.{compute}

pub record CreatePaymentInput (D : Type 0) : Type 0 where
  pub order_id : ℕ
  pub customer_id : ℕ
  pub amount : Option D

pub record ConfirmPaymentInput : Type 0 where
  pub payment_id : ℕ
  pub gateway_ref : Option String

pub record ConfirmPaymentResult (D : Type 0) : Type 0 where
  pub payment : Payment D
  pub commission : Commission D
  pub payout : Payout D

-- `find_order` reads the repository of orders, which the service never writes; its error is the text
-- of the error.
pub record PaymentService (P D : Type 0) : Type 0 where
  pub payments : PaymentRepository P D
  pub find_order : ℕ → Answer String (Option (Order D))
  pub decimals : Decimals D

abbrev clamp : ℕ → ℕ → ℕ → ℕ
clamp low high n = min (max n low) high

-- What a payment still has to be, to be confirmed.
pub is_confirmable : PaymentStatus → Bool
is_confirmable pending = true
is_confirmable authorized = true
is_confirmable captured = false
is_confirmable failed = false
is_confirmable refunded = false

abbrev same_payout : {D : Type 0} → ℕ → List (Payout D) → Option (Payout D)
same_payout id [] = none
same_payout id (p ∷ ps) = if p.id == id then some p else same_payout id ps

module _ {P D : Type 0} (sv : PaymentService P D) where
  abbrev pub order_of : ℕ → Method P (Order D)
  order_of id w = elim (sv.find_order id) [
    | good o ↦ some_or (not_found id) o w
    | bad e ↦ (bad (backend e), w)
  ]

  pub new_payment : ℕ → ℕ → CreatePaymentInput D → D → Payment D
  new_payment now id input amount = record {
    id = id;
    order_id = input.order_id;
    customer_id = input.customer_id;
    amount = amount;
    gateway_ref = "";
    status = pending;
    currency = "LAK";
    created_at = now;
    updated_at = now;
  }

  pub insert_new : ℕ → ℕ → CreatePaymentInput D → D → Method P (Payment D)
  insert_new now id input amount =
      if sv.decimals.lt sv.decimals.zero_d amount
      then (do
        write (sv.payments.insert_payment (new_payment now id input amount))
        pure (new_payment now id input amount))
      else raise (
          invalid_amount (
            String.◌++◌ "amount must be positive (got "
              (String.◌++◌ (sv.decimals.display amount) ")")))

  abbrev pub unwrap_or : Option D → D → D
  unwrap_or none d = d
  unwrap_or (some a) d = a

  pub create_missing : ℕ → ℕ → CreatePaymentInput D → Option (Payment D) → Method P (Payment D)
  create_missing now id input (some existing) = pure existing
  create_missing now id input none = do
    order ← order_of input.order_id
    insert_new now id input (unwrap_or input.amount order.total)

  pub create_payment : ℕ → ℕ → CreatePaymentInput D → Method P (Payment D)
  create_payment now id input =
      read (sv.payments.find_payment_by_order input.order_id) >>= create_missing now id input

  -- The payment that is returned: captured, with the gateway's reference when one is given.
  pub captured_payment : Option String → Payment D → Payment D
  captured_payment none p = record p { status = captured }
  captured_payment (some g) p = record p { status = captured; gateway_ref = g }

  pub commission_of : ℕ → ℕ → ℕ → Order D → Commission D
  commission_of now id technician_id order =
      let (cut, net) = compute sv.decimals order sv.decimals.half in
      record {
        id = id;
        order_id = order.id;
        technician_id = technician_id;
        gross = order.total;
        amount = cut;
        rate = sv.decimals.half;
        net_to_tech = net;
        computed_at = now;
      }

  pub payout_of : ℕ → ℕ → ℕ → Order D → Payout D
  payout_of now id technician_id order = record {
    id = id;
    technician_id = technician_id;
    order_id = order.id;
    amount = (compute sv.decimals order sv.decimals.half).1;
    status = payout_pending;
    created_at = now;
    updated_at = now;
  }

  pub capture :
      ℕ → ℕ → ℕ → ConfirmPaymentInput → Payment D → Order D → ℕ → Method P (ConfirmPaymentResult D)
  capture now comm_id payout_id input payment order technician_id = do
    write (sv.payments.update_payment_status payment.id captured input.gateway_ref)
    write (sv.payments.insert_commission (commission_of now comm_id technician_id order))
    write (sv.payments.insert_payout (payout_of now payout_id technician_id order))
    pure (record {
      payment = captured_payment input.gateway_ref payment;
      commission = commission_of now comm_id technician_id order;
      payout = payout_of now payout_id technician_id order;
    })

  pub confirm_found :
      ℕ → ℕ → ℕ → ConfirmPaymentInput → Payment D → Method P (ConfirmPaymentResult D)
  confirm_found now comm_id payout_id input payment =
      if is_confirmable payment.status
      then (do
        order ← order_of payment.order_id
        technician_id ← some_or (order_not_payable payment.order_id) order.technician_id
        capture now comm_id payout_id input payment order technician_id)
      else raise
          (invalid_amount (String.◌++◌ "payment already in status " (status_str payment.status)))

  pub confirm_payment : ℕ → ℕ → ℕ → ConfirmPaymentInput → Method P (ConfirmPaymentResult D)
  confirm_payment now comm_id payout_id input = do
    found ← read (sv.payments.find_payment input.payment_id)
    payment ← some_or (not_found input.payment_id) found
    confirm_found now comm_id payout_id input payment

  pub list_payments_for : ℕ → ℕ → Method P (List (Payment D))
  list_payments_for customer_id limit =
      read (sv.payments.list_payments_for_customer customer_id (clamp 1 200 limit))

  pub find_payment : ℕ → Method P (Option (Payment D))
  find_payment id = read (sv.payments.find_payment id)

  pub list_payouts : Option ℕ → Option PayoutStatus → ℕ → Method P (List (Payout D))
  list_payouts technician_id status limit =
      read (sv.payments.list_payouts technician_id status (clamp 1 500 limit))

  pub mark_payout_paid : ℕ → Method P (Payout D)
  mark_payout_paid id = do
    write (sv.payments.update_payout_status id paid)
    all ← read (sv.payments.list_payouts none none 500)
    some_or (not_found id) (same_payout id all)
