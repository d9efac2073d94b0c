-- ===== src/Payment/Mssql/Tests.antt =====
-- Tests of crates/infra/src/db/mssql_payment.rs, on a database that keeps the orders it was given.
use kokkeak_api.Payment.Types.{good, Payment}
use kokkeak_api.Payment.{PaymentService, create_payment, ConfirmPaymentInput, CreatePaymentInput}
use kokkeak_api.Payment.Mssql.{SavePayment, mssql, on_mssql, created_twice}
use kokkeak_api.Payment.Sample.{hundredths, order}
use kokkeak_api.Prelude.{ℕ, List, [], ◌∷◌, none, some, ◌≡◌, refl}

abbrev save : SavePayment (List ℕ) ℕ
save order_id customer_id amount method w = (good tt, order_id ∷ w)

abbrev service : PaymentService (List ℕ) ℕ
service = record {
  payments = mssql save;
  find_order = λ i. good (some order);
  decimals = hundredths;
}

abbrev confirm : ConfirmPaymentInput
confirm = record { payment_id = 1; gateway_ref = none }

abbrev for_order : CreatePaymentInput ℕ
for_order = record { order_id = 9; customer_id = 3; amount = none }

created_twice_example :
    let (first, st) = create_payment (on_mssql save service) 0 1 for_order [] in
    let (second, st') = create_payment (on_mssql save service) 5 2 for_order st in
    (p : Payment ℕ) × (q : Payment ℕ) × (first ≡ good p)
    × (second ≡ good q)
    × (p.id ≡ 1)
    × (q.id ≡ 2)
    × (p.order_id ≡ 9)
    × (q.order_id ≡ 9)
    × (st ≡ 9 ∷ [])
    × (st' ≡ 9 ∷ 9 ∷ [])
created_twice_example =
    created_twice save service 0 1 5 2 for_order order [] (9 ∷ []) (9 ∷ 9 ∷ []) refl refl refl refl
