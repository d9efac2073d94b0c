-- ===== src/Payment/Tests.antt =====
-- Tests of crates/application/src/payment.rs at a repository of lists whose commissions can fail,
-- with amounts in hundredths.
use native.Mathlib.Nat.{mul-le-mul_left}
use kokkeak_api.Payment.Types.{
  good, bad, captured, Payment, pending, PaymentRepository, PaymentStatus, backend_error,
}
use kokkeak_api.Prelude.{
  ◌==◌, ℕ, refl, none, some, true, false, [], if◌then◌else◌, ◌∷◌, Bool, ltb, List, ◌≡◌, Option, ◌*◌,
  ◌+◌, arith, ◌/◌, ◌-◌, ◌≤◌,
}
use kokkeak_api.Payment.{
  ConfirmPaymentResult, create_payment, ConfirmPaymentInput, CreatePaymentInput, is_confirmable,
  confirm_payment, confirm_found, commission_of, create_missing, PaymentService, insert_new,
  capture, payout_of, captured_payment, new_payment,
}
use kokkeak_api.Payment.Sample.{hundredths, order}
use kokkeak_api.Payment.Split.{compute}
use kokkeak_api.Payment.Money.{compute_splits}

compute_splits_example :
    ((compute hundredths order 33).0 + (compute hundredths order 33).1 ≡ 123)
    × (ltb 123 (compute hundredths order 33).0 ≡ false)
compute_splits_example =
    compute_splits hundredths (λ x y. x + y) order 33 undone (λ x. omega arith) irreflexive shrinks
      (λ x y e h. h) (λ x y e. refl) refl refl
  where
    undone : (x y : ℕ) → ltb x y ≡ false → y + (x - y) ≡ x
    undone x y h = ground arith

    irreflexive : (x : ℕ) → ltb x x ≡ false
    irreflexive x = ground arith

    shrinks : (x y : ℕ) → ltb x 0 ≡ false → ltb 100 y ≡ false → ltb x (x * y / 100) ≡ false
    shrinks x y h k =
        let le : y ≤ 100 = ground arith in
        let bound : x * y ≤ x * 100 = mul-le-mul_left x le in
        let quotient : x * y / 100 ≤ x = omega arith in ground arith

abbrev payment : PaymentStatus → Payment ℕ
payment s = record {
  id = 1;
  order_id = 9;
  customer_id = 3;
  amount = 123;
  gateway_ref = "";
  status = s;
  currency = "LAK";
  created_at = 0;
  updated_at = 0;
}

-- The last payment that was written, for its identifier and its order.
abbrev last : (Payment ℕ → ℕ) → ℕ → List (Payment ℕ) → Option (Payment ℕ)
last f i [] = none
last f i (p ∷ ps) = if f p == i then some p else last f i ps

update : ℕ → PaymentStatus → List (Payment ℕ) → List (Payment ℕ)
update i s [] = []
update i s (p ∷ ps) =
    let rest = update i s ps in if p.id == i then record p { status = s } ∷ rest else p ∷ rest

abbrev repository : Bool → PaymentRepository (List (Payment ℕ)) ℕ
repository works = record {
  insert_payment = λ p w. (good tt, p ∷ w);
  find_payment = λ i w. good (last (λ p. p.id) i w);
  find_payment_by_order = λ i w. good (last (λ p. p.order_id) i w);
  list_payments_for_customer = λ i limit w. good w;
  update_payment_status = λ i s g w. (good tt, update i s w);
  insert_commission = λ c w. (if works then good tt else bad (backend_error "down"), w);
  insert_payout = λ c w. (good tt, w);
  list_payouts = λ t s limit w. good [];
  update_payout_status = λ i s w. (good tt, w);
}

abbrev service : Bool → PaymentService (List (Payment ℕ)) ℕ
service works = record {
  payments = repository works;
  find_order = λ i. if i == 9 then good (some order) else good none;
  decimals = hundredths;
}

abbrev input : ConfirmPaymentInput
input = record { payment_id = 1; gateway_ref = none }

abbrev one_pending : List (Payment ℕ)
one_pending = payment pending ∷ []

abbrev result : ConfirmPaymentResult ℕ
result = record {
  payment = payment captured;
  commission = commission_of (service true) 5 6 4 order;
  payout = payout_of (service true) 5 7 4 order;
}

confirms : (confirm_payment (service true) 5 6 7 input one_pending).0 ≡ good result
unfolding confirm_payment confirm_found capture captured_payment is_confirmable
confirms = refl

abbrev for_order : CreatePaymentInput ℕ
for_order = record { order_id = 9; customer_id = 3; amount = none }

creates : (create_payment (service true) 0 1 for_order []).0 ≡ good (payment pending)
unfolding create_payment create_missing insert_new new_payment
creates = refl

created_once :
    create_payment (service true) 8 2 for_order (create_payment (service true) 0 1 for_order []).1
    ≡ (good (payment pending), payment pending ∷ [])
unfolding create_payment create_missing insert_new new_payment
created_once = refl
