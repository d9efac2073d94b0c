-- ===== src/Payment/Laws.antt =====
-- What confirming and creating a payment do, for crates/application/src/payment.rs.
use kokkeak_api.Payment.{
  PaymentService, confirm_payment, ConfirmPaymentInput, confirm_found, capture, captured_payment,
  commission_of, payout_of, is_confirmable, ConfirmPaymentResult,
}
use kokkeak_api.Payment.Types.{
  good, bad, captured, Payment, Answer, PaymentRepoError, is_settled, repo_err, status_str,
  PaymentStatus, invalid_amount,
}
use kokkeak_api.Order.{Order}
use kokkeak_api.Prelude.{some, true, ℕ, ◌≡◌, arith, refl, none, Option, String, false, ◌∙◌}

module _ {P D : Type 0} (sv : PaymentService P D) where
  pub confirm_payment_found :
      (now comm_id payout_id : ℕ) (input : ConfirmPaymentInput) (p : Payment D) (order : Order D)
      (technician_id : ℕ) (st : P)
      → sv.payments.find_payment input.payment_id st ≡ good (some p)
      → is_confirmable p.status ≡ true
      → sv.find_order p.order_id ≡ good (some order)
      → order.technician_id ≡ some technician_id
      → confirm_payment sv now comm_id payout_id input st
        ≡ capture sv now comm_id payout_id input p order technician_id st
  unfolding confirm_payment confirm_found
  confirm_payment_found now comm_id payout_id input p order technician_id st found open_status
        ordered assigned =
      ground arith

  -- The states that a confirmation passes through: the payment is captured, the commission is
  -- recorded, the payout is recorded.
  abbrev pub after_capture : ConfirmPaymentInput → Payment D → P → P
  after_capture input p st =
      (sv.payments.update_payment_status p.id captured input.gateway_ref st).1

  pub capture-eq-ok :
      (now comm_id payout_id : ℕ) (input : ConfirmPaymentInput) (p : Payment D) (order : Order D)
      (technician_id : ℕ) (st : P) (r : ConfirmPaymentResult D)
      → (capture sv now comm_id payout_id input p order technician_id st).0 ≡ good r
      → (r ≡ record {
        payment = captured_payment sv input.gateway_ref p;
        commission = commission_of sv now comm_id technician_id order;
        payout = payout_of sv now payout_id technician_id order;
      })
        × ((capture sv now comm_id payout_id input p order technician_id st).1
            ≡ (sv.payments.insert_payout
                (payout_of sv now payout_id technician_id order)
                (sv.payments.insert_commission
                  (commission_of sv now comm_id technician_id order)
                  (after_capture input p st)).1).1)
  unfolding capture
  capture-eq-ok now comm_id payout_id input p order technician_id st r h = ground arith

  pub confirm_payment-inv :
      (now comm_id payout_id : ℕ) (input : ConfirmPaymentInput) (st : P)
      (r : ConfirmPaymentResult D)
      → (confirm_payment sv now comm_id payout_id input st).0 ≡ good r
      → (p : Payment D) × (order : Order D) × (technician_id : ℕ) × (sv.payments.find_payment
            input.payment_id st
          ≡ good (some p))
        × (is_confirmable p.status ≡ true)
        × (sv.find_order p.order_id ≡ good (some order))
        × (order.technician_id ≡ some technician_id)
  unfolding confirm_payment confirm_found
  confirm_payment-inv now comm_id payout_id input st r h =
      found (sv.payments.find_payment input.payment_id st) refl
    where
      Found : Type 0
      Found =
          (p : Payment D) × (order : Order D) × (technician_id : ℕ) × (sv.payments.find_payment
              input.payment_id st
            ≡ good (some p))
          × (is_confirmable p.status ≡ true)
          × (sv.find_order p.order_id ≡ good (some order))
          × (order.technician_id ≡ some technician_id)

      assigned :
          (p : Payment D) (order : Order D)
          → sv.payments.find_payment input.payment_id st ≡ good (some p)
          → is_confirmable p.status ≡ true
          → sv.find_order p.order_id ≡ good (some order)
          → (o : Option ℕ) → order.technician_id ≡ o
          → Found
      assigned p order f c ordered none o = ground arith
      assigned p order f c ordered (some t) o = (p, order, t, f, c, ordered, o)

      ordered :
          (p : Payment D)
          → sv.payments.find_payment input.payment_id st ≡ good (some p)
          → is_confirmable p.status ≡ true
          → (a : Answer String (Option (Order D))) → sv.find_order p.order_id ≡ a
          → Found
      ordered p f c (bad e) k = ground arith
      ordered p f c (good none) k = ground arith
      ordered p f c (good (some order)) k = assigned p order f c k order.technician_id refl

      found :
          (a : Answer PaymentRepoError (Option (Payment D)))
          → sv.payments.find_payment input.payment_id st ≡ a
          → Found
      found (bad e) k = ground arith
      found (good none) k = ground arith
      found (good (some p)) k = ordered p k (ground arith) (sv.find_order p.order_id) refl

  pub captured_payment-status :
      (g : Option String) (p : Payment D)
      → ((captured_payment sv g p).status ≡ captured) × ((captured_payment sv g p).id ≡ p.id)
  unfolding captured_payment
  captured_payment-status none p = (refl, refl)
  captured_payment-status (some g) p = (refl, refl)

  pub confirmable_unsettled : (s : PaymentStatus) → is_confirmable s ≡ true → is_settled s ≡ false
  unfolding is_confirmable is_settled
  confirmable_unsettled s h = ground arith

  -- The capture is written, then recording the commission fails.
  pub capture_fails :
      (now comm_id payout_id : ℕ) (input : ConfirmPaymentInput) (p : Payment D) (order : Order D)
      (technician_id : ℕ) (e : PaymentRepoError) (st : P)
      → (sv.payments.update_payment_status p.id captured input.gateway_ref st).0 ≡ good tt
      → sv.payments.insert_commission
          (commission_of sv now comm_id technician_id order)
          (after_capture input p st)
        ≡ (bad e, after_capture input p st)
      → capture sv now comm_id payout_id input p order technician_id st
        ≡ (bad (repo_err e), after_capture input p st)
  unfolding capture
  capture_fails now comm_id payout_id input p order technician_id e st updated fails = ground arith

  enters :
      (now comm_id payout_id : ℕ) (input : ConfirmPaymentInput) (p : Payment D) (st : P)
      → sv.payments.find_payment input.payment_id st ≡ good (some p)
      → confirm_payment sv now comm_id payout_id input st
        ≡ confirm_found sv now comm_id payout_id input p st
  unfolding confirm_payment
  enters now comm_id payout_id input p st found = ground arith

  is_closed :
      (now comm_id payout_id : ℕ) (input : ConfirmPaymentInput) (p : Payment D) (st : P)
      → p.status ≡ captured
      → confirm_found sv now comm_id payout_id input p st
        ≡ (bad (invalid_amount "payment already in status captured"), st)
  unfolding confirm_found is_confirmable status_str
  is_closed now comm_id payout_id input p st is_captured = rw is_captured

  pub already_captured :
      (now comm_id payout_id : ℕ) (input : ConfirmPaymentInput) (p : Payment D) (st : P)
      → sv.payments.find_payment input.payment_id st ≡ good (some p)
      → p.status ≡ captured
      → confirm_payment sv now comm_id payout_id input st
        ≡ (bad (invalid_amount "payment already in status captured"), st)
  already_captured now comm_id payout_id input p st found is_captured =
      enters now comm_id payout_id input p st found
      ∙ is_closed now comm_id payout_id input p st is_captured
