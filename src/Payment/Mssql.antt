-- ===== src/Payment/Mssql.antt =====
-- The only repository of payments that the program has: crates/infra/src/db/mssql_payment.rs. `exec_sp`
-- stands for the call of the stored procedure API_PAYMENT_CREATE on the database's state, with the
-- order, the customer, the amount and the code of the method.
mod Tests
use Prim.Native.String
use kokkeak_api.Payment.Types.{
  PaymentRepository, PaymentRepoError, backend_error, Payment, Answer, good, bad, ◌>>=◌, ◌>>◌,
  PaymentError,
}
use kokkeak_api.Payment.{
  PaymentService, create_payment, create_missing, insert_new, new_payment, CreatePaymentInput,
  ConfirmPaymentResult, order_of, unwrap_or,
}
use kokkeak_api.Order.{Order}
use kokkeak_api.Text.{is_empty}
use kokkeak_api.Prelude.{
  ℕ, String, Option, none, some, true, false, if◌then◌else◌, ◌≡◌, refl, arith,
}

abbrev pub SavePayment : Type 0 → Type 0 → Type 0
SavePayment P D = ℕ → ℕ → D → String → P → Answer String (Unit {0}) × P

module _ {P D : Type 0} (exec_sp : SavePayment P D) where
  pub method_code : Payment D → String
  method_code payment = if is_empty payment.gateway_ref then "local" else "gateway"

  abbrev lands : {A : Type 0} → String → Answer PaymentRepoError A
  lands what = bad (backend_error (String.◌++◌ "MssqlPaymentRepository::" what))

  pub insert_payment : Payment D → P → Answer PaymentRepoError (Unit {0}) × P
  insert_payment payment w =
      let (answer, w') =
        exec_sp payment.order_id payment.customer_id payment.amount (method_code payment) w in
      elim answer [ good u ↦ (good tt, w') | bad e ↦ (bad (backend_error e), w') ]

  -- The searches find nothing, and every other operation fails.
  abbrev pub mssql : PaymentRepository P D
  mssql = record {
    insert_payment = insert_payment;
    find_payment = λ id w. good none;
    find_payment_by_order = λ id w. good none;
    list_payments_for_customer =
        λ id limit w. lands "list_payments_for_customer — SP lands in M15+";
    update_payment_status = λ id status gateway_ref w. (
      lands "update_payment_status — API_PAYMENT_CONFIRM SP wired but trait signature differs",
      w,
    );
    insert_commission = λ c w. (lands "insert_commission — lands in M15+", w);
    insert_payout = λ p w. (lands "insert_payout — lands in M15+", w);
    list_payouts = λ id status limit w. lands "list_payouts — lands in M15+";
    update_payout_status = λ id status w. (lands "update_payout_status — lands in M15+", w);
  }

  -- The service on this repository.
  abbrev pub on_mssql : PaymentService P D → PaymentService P D
  on_mssql sv = record sv { payments = mssql }

  -- A payment that is created is stored: the call before it has answered, with the amount of the input,
  -- or the order's total where the input has none.
  create_payment-eq :
      (sv : PaymentService P D) (now id : ℕ) (input : CreatePaymentInput D) (order : Order D)
      (w w' : P)
      → sv.find_order input.order_id ≡ good (some order)
      → sv.decimals.lt sv.decimals.zero_d (unwrap_or sv input.amount order.total) ≡ true
      → exec_sp input.order_id input.customer_id (unwrap_or sv input.amount order.total) "local" w
        ≡ (good tt, w')
      → create_payment (on_mssql sv) now id input w
        ≡ (good (new_payment sv now id input (unwrap_or sv input.amount order.total)), w')
  unfolding create_payment create_missing insert_new new_payment insert_payment method_code
  create_payment-eq sv now id input order w w' found positive stored = ground arith

  -- In the program a second payment is created for an order that has one: on the one repository of
  -- payments that it has, two calls for the same order, which exists, with an amount above zero, both
  -- succeed and return payments under the two identifiers that were drawn, and the stored procedure that creates a
  -- payment runs for each of them, if the database takes both.
  pub created_twice :
      (sv : PaymentService P D) (now id now' id' : ℕ) (input : CreatePaymentInput D)
      (order : Order D) (w w1 w2 : P)
      → sv.find_order input.order_id ≡ good (some order)
      → sv.decimals.lt sv.decimals.zero_d (unwrap_or sv input.amount order.total) ≡ true
      → exec_sp input.order_id input.customer_id (unwrap_or sv input.amount order.total) "local" w
        ≡ (good tt, w1)
      → exec_sp input.order_id input.customer_id (unwrap_or sv input.amount order.total) "local" w1
        ≡ (good tt, w2)
      → let (first, st) = create_payment (on_mssql sv) now id input w in
        let (second, st') = create_payment (on_mssql sv) now' id' input st in
        (p : Payment D) × (q : Payment D) × (first ≡ good p)
        × (second ≡ good q)
        × (p.id ≡ id)
        × (q.id ≡ id')
        × (p.order_id ≡ input.order_id)
        × (q.order_id ≡ input.order_id)
        × (st ≡ w1)
        × (st' ≡ w2)
  unfolding new_payment
  created_twice sv now id now' id' input order w w1 w2 found positive first second =
      let one = create_payment-eq sv now id input order w w1 found positive first in
      let two = create_payment-eq sv now' id' input order w1 w2 found positive second in
      rw (one, two)
        (
          new_payment sv now id input (unwrap_or sv input.amount order.total),
          new_payment sv now' id' input (unwrap_or sv input.amount order.total),
          refl,
          refl,
          refl,
          refl,
          refl,
          refl,
          refl,
          refl,
        )
