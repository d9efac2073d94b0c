-- ===== src/Payment/Split.antt =====
-- `commission::compute` of crates/domain/src/payment.rs.
use kokkeak_api.Prelude.{if◌then◌else◌}
use kokkeak_api.Order.{Order}
use kokkeak_api.Payment.Types.{Decimals}

unfoldable pub compute : {D : Type 0} → Decimals D → Order D → D → D × D
compute d order rate =
    if d.lt rate d.zero_d
    then (order.total, d.zero_d)
    else let cap_rate = if d.lt d.one_d rate then d.one_d else rate in
      let amount = d.round_dp_2 (d.times order.total cap_rate) in
      (amount, d.round_dp_2 (d.minus order.total amount))
