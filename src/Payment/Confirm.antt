-- ===== src/Payment/Confirm.antt =====
-- What `confirm_payment` and `mark_payout_paid` of
-- crates/application/src/payment.rs leave behind, also where one of their writes fails: over a
-- repository that finds and updates payments, which the program's own (Payment/Mssql) does not.
use kokkeak_api.Payment.{
  PaymentService, confirm_payment, captured_payment, commission_of, payout_of, ConfirmPaymentInput,
  ConfirmPaymentResult, is_confirmable, mark_payout_paid, same_payout,
}
use kokkeak_api.Payment.Types.{
  good, bad, captured, Payment, is_settled, invalid_amount, PaymentRepoError, repo_err, Payout,
  paid, not_found,
}
use kokkeak_api.Order.{Order}
use kokkeak_api.Prelude.{some, true, false, ℕ, ◌≡◌, ◌∙◌, ap, sym, none, List, arith}
use kokkeak_api.Payment.Split.{compute}
use kokkeak_api.Payment.Laws.{
  after_capture, confirm_payment_found, confirm_payment-inv, capture-eq-ok, capture_fails,
  captured_payment-status, confirmable_unsettled, already_captured,
}

module _ {P D : Type 0} (sv : PaymentService P D) where
  -- A confirmation that returns a result found the payment not settled and its order with a
  -- technician. The payment is returned as captured; the commission and the payout go to that
  -- technician for that order and split the order's total as computed at the rate of one half, the
  -- payout being the commission's net; and the repository has seen exactly the capture, the
  -- commission and the payout, in this order.
  pub confirm_payment-eq-ok :
      (now comm_id payout_id : ℕ) (input : ConfirmPaymentInput) (st : P)
      (r : ConfirmPaymentResult D)
      → (confirm_payment sv now comm_id payout_id input st).0 ≡ good r
      → (p : Payment D) × (order : Order D) × (technician_id : ℕ) × (sv.payments.find_payment
            input.payment_id st
          ≡ good (some p))
        × (is_settled p.status ≡ false)
        × (sv.find_order p.order_id ≡ good (some order))
        × (order.technician_id ≡ some technician_id)
        × (r.payment.status ≡ captured)
        × (r.payment.id ≡ p.id)
        × (r.commission.technician_id ≡ technician_id)
        × (r.payout.technician_id ≡ technician_id)
        × (r.commission.order_id ≡ order.id)
        × (r.payout.order_id ≡ order.id)
        × ((r.commission.amount, r.commission.net_to_tech)
            ≡ compute sv.decimals order sv.decimals.half)
        × (r.payout.amount ≡ r.commission.net_to_tech)
        × ((confirm_payment sv now comm_id payout_id input st).1
            ≡ (sv.payments.insert_payout r.payout
                (sv.payments.insert_commission r.commission
                  (sv.payments.update_payment_status p.id captured input.gateway_ref st).1).1).1)
  unfolding captured_payment commission_of payout_of
  confirm_payment-eq-ok now comm_id payout_id input st r h =
      let (p, order, t, found, open_status, ordered, assigned) =
        confirm_payment-inv sv now comm_id payout_id input st r h in
      let runs =
        confirm_payment_found sv now comm_id payout_id input p order t st found open_status ordered
          assigned in
      let (is_r, state) =
        capture-eq-ok sv now comm_id payout_id input p order t st r (rw runs at h) in
      let status = captured_payment-status sv input.gateway_ref p in
      (
        p,
        order,
        t,
        found,
        confirmable_unsettled sv p.status open_status,
        ordered,
        assigned,
        ap (λ x. x.payment.status) is_r ∙ status.0,
        ap (λ x. x.payment.id) is_r ∙ status.1,
        ap (λ x. x.commission.technician_id) is_r,
        ap (λ x. x.payout.technician_id) is_r,
        ap (λ x. x.commission.order_id) is_r,
        ap (λ x. x.payout.order_id) is_r,
        ap (λ x. (x.commission.amount, x.commission.net_to_tech)) is_r,
        ap (λ x. x.payout.amount) is_r ∙ sym (ap (λ x. x.commission.net_to_tech) is_r),
        rw (runs, state)
            (sym (
              ap
                (λ x.
                  (sv.payments.insert_payout x.payout
                    (sv.payments.insert_commission x.commission (after_capture sv input p st)).1).1)
                is_r)),
      )

  -- A payment whose capture was written but whose commission could not be recorded is not
  -- recoverable: when the repository finds the captured payment again and a failed insertion leaves
  -- it unchanged, the confirmation fails with the repository's error, and every further confirmation
  -- of the payment fails as already captured and changes nothing.
  pub lost_commission :
      (now comm_id payout_id : ℕ) (input : ConfirmPaymentInput) (p captured_p : Payment D)
      (order : Order D) (technician_id : ℕ) (e : PaymentRepoError) (st : P)
      (later comm_id' payout_id' : ℕ) (again : ConfirmPaymentInput)
      → sv.payments.find_payment input.payment_id st ≡ good (some p)
      → is_confirmable p.status ≡ true
      → sv.find_order p.order_id ≡ good (some order)
      → order.technician_id ≡ some technician_id
      → (sv.payments.update_payment_status p.id captured input.gateway_ref st).0 ≡ good tt
      → sv.payments.find_payment input.payment_id (after_capture sv input p st)
        ≡ good (some captured_p)
      → captured_p.status ≡ captured
      → sv.payments.insert_commission
          (commission_of sv now comm_id technician_id order)
          (after_capture sv input p st)
        ≡ (bad e, after_capture sv input p st)
      → again.payment_id ≡ input.payment_id
      → let st' = (confirm_payment sv now comm_id payout_id input st).1 in
        ((confirm_payment sv now comm_id payout_id input st).0 ≡ bad (repo_err e))
        × (confirm_payment sv later comm_id' payout_id' again st'
            ≡ (bad (invalid_amount "payment already in status captured"), st'))
  lost_commission now comm_id payout_id input p captured_p order technician_id e st later comm_id'
        payout_id' again found confirmable ordered assigned updated found_again is_captured fails
        same =
      let fails_first =
        confirm_payment_found sv now comm_id payout_id input p order technician_id st found
          confirmable ordered assigned
        ∙ capture_fails sv now comm_id payout_id input p order technician_id e st updated fails in
      (
        ap (λ w. w.0) fails_first,
        rw fails_first (
            already_captured sv later comm_id' payout_id' again captured_p
              (after_capture sv input p st) (rw same found_again) is_captured),
      )

  -- A payout that is not among the first 500 that the repository lists is reported as not found by
  -- `mark_payout_paid`, although the payout was marked as paid.
  pub marked_but_not_found :
      (id : ℕ) (all : List (Payout D)) (st : P)
      → (sv.payments.update_payout_status id paid st).0 ≡ good tt
      → sv.payments.list_payouts none none 500 (sv.payments.update_payout_status id paid st).1
        ≡ good all
      → same_payout id all ≡ none
      → mark_payout_paid sv id st
        ≡ (bad (not_found id), (sv.payments.update_payout_status id paid st).1)
  unfolding mark_payout_paid
  marked_but_not_found id all st marked listed missing = ground arith
