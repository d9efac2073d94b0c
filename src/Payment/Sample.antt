-- ===== src/Payment/Sample.antt =====
-- What the tests of payments share: amounts in hundredths, and an order.
use kokkeak_api.Payment.Types.{Decimals}
use kokkeak_api.Order.{Order, completed}
use kokkeak_api.Prelude.{ℕ, some, ltb, ◌*◌, ◌/◌, ◌-◌}

abbrev pub hundredths : Decimals ℕ
hundredths = record {
  zero_d = 0;
  one_d = 100;
  half = 50;
  lt = ltb;
  times = λ x y. x * y / 100;
  minus = λ x y. x - y;
  round_dp_2 = λ x. x;
  display = λ x. "";
}

abbrev pub order : Order ℕ
order = record {
  id = 9;
  service_code = "ac";
  customer_id = 3;
  technician_id = some 4;
  description = "";
  address = "";
  total = 123;
  status = completed;
  created_at = 0;
  updated_at = 0;
}
