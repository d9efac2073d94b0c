-- ===== src/Payment/Create.antt =====
-- `create_payment` of crates/application/src/payment.rs makes one payment for an order, over
-- a repository that finds the payment of an order, which the program's own (Payment/Mssql) does not.
use kokkeak_api.Payment.{
  PaymentService, create_missing, create_payment, CreatePaymentInput, insert_new, new_payment,
  unwrap_or,
}
use kokkeak_api.Payment.Types.{good, bad, Payment, PaymentRepoError, Answer}
use kokkeak_api.Order.{Order}
use kokkeak_api.Prelude.{some, ℕ, ◌≡◌, ◌∙◌, ap, sym, refl, none, Option, arith, String}

module _ {P D : Type 0} (sv : PaymentService P D) where
  insert_new-eq-good :
      (now id : ℕ) (input : CreatePaymentInput D) (amount : D) (st : P) (p : Payment D)
      → (insert_new sv now id input amount st).0 ≡ good p
      → (p ≡ new_payment sv now id input amount)
        × ((sv.payments.insert_payment (new_payment sv now id input amount) st).0 ≡ good tt)
        × ((insert_new sv now id input amount st).1
            ≡ (sv.payments.insert_payment (new_payment sv now id input amount) st).1)
  unfolding insert_new
  insert_new-eq-good now id input amount st p h = ground arith

  missing_ordered :
      (now id : ℕ) (input : CreatePaymentInput D) (order : Order D) (st : P)
      → sv.find_order input.order_id ≡ good (some order)
      → create_missing sv now id input none st
        ≡ insert_new sv now id input (unwrap_or sv input.amount order.total) st
  unfolding create_missing
  missing_ordered now id input order st h = ground arith

  missing_has_order :
      (now id : ℕ) (input : CreatePaymentInput D) (st : P) (p : Payment D)
      → (create_missing sv now id input none st).0 ≡ good p
      → (order : Order D) × (sv.find_order input.order_id ≡ good (some order))
  unfolding create_missing
  missing_has_order now id input st p h = of_answer (sv.find_order input.order_id) refl
    where
      of_answer :
          (a : Answer String (Option (Order D)))
          → sv.find_order input.order_id ≡ a
          → (order : Order D) × (sv.find_order input.order_id ≡ good (some order))
      of_answer (bad e) k = ground arith
      of_answer (good none) k = ground arith
      of_answer (good (some order)) k = (order, k)

  create_missing-found :
      (now id : ℕ) (input : CreatePaymentInput D) (o : Option (Payment D)) (st : P) (p : Payment D)
      → ((q : Payment D) (w : P)
          → (sv.payments.insert_payment q w).0 ≡ good tt
          → sv.payments.find_payment_by_order q.order_id (sv.payments.insert_payment q w).1
            ≡ good (some q))
      → sv.payments.find_payment_by_order input.order_id st ≡ good o
      → (create_missing sv now id input o st).0 ≡ good p
      → sv.payments.find_payment_by_order input.order_id (create_missing sv now id input o st).1
        ≡ good (some p)
  unfolding create_missing new_payment
  create_missing-found now id input (some q) st p kept found h = ground arith
  create_missing-found now id input none st p kept found h =
      let (order, ordered) = missing_has_order now id input st p h in
      let amount = unwrap_or sv input.amount order.total in
      let runs = missing_ordered now id input order st ordered in
      let (is_p, inserted, state) = insert_new-eq-good now id input amount st p (rw runs at h) in
      ap (λ w. sv.payments.find_payment_by_order input.order_id w.1) runs
      ∙ ap (sv.payments.find_payment_by_order input.order_id) state
      ∙ kept (new_payment sv now id input amount) st inserted
      ∙ ap (λ q. good (some q)) (sym is_p)

  create_payment-found :
      (now id : ℕ) (input : CreatePaymentInput D) (st : P) (p : Payment D)
      → ((q : Payment D) (w : P)
          → (sv.payments.insert_payment q w).0 ≡ good tt
          → sv.payments.find_payment_by_order q.order_id (sv.payments.insert_payment q w).1
            ≡ good (some q))
      → (create_payment sv now id input st).0 ≡ good p
      → sv.payments.find_payment_by_order input.order_id (create_payment sv now id input st).1
        ≡ good (some p)
  unfolding create_payment
  create_payment-found now id input st p kept h =
      of_answer (sv.payments.find_payment_by_order input.order_id st) refl
    where
      reads :
          (o : Option (Payment D))
          → sv.payments.find_payment_by_order input.order_id st ≡ good o
          → create_payment sv now id input st ≡ create_missing sv now id input o st
      reads o k = ground arith

      of_answer :
          (a : Answer PaymentRepoError (Option (Payment D)))
          → sv.payments.find_payment_by_order input.order_id st ≡ a
          → sv.payments.find_payment_by_order input.order_id (create_payment sv now id input st).1
            ≡ good (some p)
      of_answer (bad e) k = ground arith
      of_answer (good o) k =
          rw (reads o k) (create_missing-found now id input o st p kept k (rw (reads o k) at h))

  created_again :
      (later id : ℕ) (again : CreatePaymentInput D) (p : Payment D) (st : P)
      → sv.payments.find_payment_by_order again.order_id st ≡ good (some p)
      → create_payment sv later id again st ≡ (good p, st)
  unfolding create_payment create_missing
  created_again later id again p st found = ground arith

  -- Creating a payment for an order that already has one, also right after a successful creation,
  -- returns that payment and writes nothing, when the repository finds by its order the payment that
  -- it has inserted.
  pub create_payment_once :
      (now id : ℕ) (input : CreatePaymentInput D) (st : P) (p : Payment D) (later id' : ℕ)
      (again : CreatePaymentInput D)
      → ((q : Payment D) (w : P)
          → (sv.payments.insert_payment q w).0 ≡ good tt
          → sv.payments.find_payment_by_order q.order_id (sv.payments.insert_payment q w).1
            ≡ good (some q))
      → (create_payment sv now id input st).0 ≡ good p
      → again.order_id ≡ input.order_id
      → let st' = (create_payment sv now id input st).1 in
        create_payment sv later id' again st' ≡ (good p, st')
  create_payment_once now id input st p later id' again kept h same =
      created_again later id' again p (create_payment sv now id input st).1
        (rw same (create_payment-found now id input st p kept h))
