-- ===== src/Payment/Money.antt =====
-- The split of an order's total by `commission::compute` of crates/domain/src/payment.rs.
use kokkeak_api.Payment.Types.{Decimals}
use kokkeak_api.Order.{Order}
use kokkeak_api.Prelude.{false, inl, inr, if◌then◌else◌, ◌≡◌, Bool-cases}
use kokkeak_api.Payment.Split.{compute}

module _ {D : Type 0} (d : Decimals D) where
  -- The rate that `compute` applies: one of at most 1, if it is not negative.
  capped : D → D
  capped rate = if d.lt d.one_d rate then d.one_d else rate

  capped_le_one : (rate : D) → ((x : D) → d.lt x x ≡ false) → d.lt d.one_d (capped rate) ≡ false
  unfolding capped
  capped_le_one rate irreflexive = elim (Bool-cases (d.lt d.one_d rate)) [
    | inl above ↦ rw above (irreflexive d.one_d)
    | inr within ↦ rw (within, within)
  ]

  -- Whatever the rate, also a negative one and one above 1, the commission and the technician's net
  -- add up to the order's total, and the commission does not exceed it, when the total is a number
  -- of two decimals that is not negative. Of the number type it uses: a product of such a number
  -- with a factor of at most 1 is at most that number; rounding to two decimals does not pass a
  -- number of two decimals; a difference of two numbers of two decimals has two decimals; and
  -- subtraction of what is not larger is undone by addition.
  pub compute_splits :
      (add : D → D → D) (order : Order D) (rate : D)
      → ((x y : D) → d.lt x y ≡ false → add y (d.minus x y) ≡ x)
      → ((x : D) → add x d.zero_d ≡ x)
      → ((x : D) → d.lt x x ≡ false)
      → ((x y : D)
          → d.lt x d.zero_d ≡ false
          → d.lt d.one_d y ≡ false
          → d.lt x (d.times x y) ≡ false)
      → ((x y : D) → d.round_dp_2 x ≡ x → d.lt x y ≡ false → d.lt x (d.round_dp_2 y) ≡ false)
      → ((x y : D)
          → d.round_dp_2 x ≡ x
          → d.round_dp_2 (d.minus x (d.round_dp_2 y)) ≡ d.minus x (d.round_dp_2 y))
      → d.round_dp_2 order.total ≡ order.total
      → d.lt order.total d.zero_d ≡ false
      → (add (compute d order rate).0 (compute d order rate).1 ≡ order.total)
        × (d.lt order.total (compute d order rate).0 ≡ false)
  unfolding compute capped
  compute_splits add order rate undone add_zero irreflexive shrinks rounds exact two_decimals
        not_negative =
      elim (Bool-cases (d.lt rate d.zero_d)) [
        | inl negative ↦ rw negative (add_zero order.total, irreflexive order.total)
        | inr usual ↦
            let cut = d.times order.total (capped rate) in
            let within =
              rounds order.total cut two_decimals
                (shrinks order.total (capped rate) not_negative (capped_le_one rate irreflexive)) in
            rw usual (
              rw (exact order.total cut two_decimals)
                  (undone order.total (d.round_dp_2 cut) within),
              within,
            )
      ]
