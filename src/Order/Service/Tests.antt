-- ===== src/Order/Service/Tests.antt =====
-- Tests of crates/application/src/order.rs, at a repository and a queue that are lists, with numbers
-- for decimals, of which 0 stands for a negative one.
use kokkeak_api.Order.{Order, pending}
use kokkeak_api.Order.Service.{
  OrderService, OrderRepository, QueuePort, CreateOrderInput, create_order, order_of, publish,
}
use kokkeak_api.Auth.Types.{repo_ok}
use kokkeak_api.Effect.{good}
use kokkeak_api.Prelude.{
  ◌==◌, ℕ, refl, take, length-take, none, some, [], ◌∷◌, ◌≡◌, Option, List, String, length, ◌≤◌,
  arith,
}

abbrev orders : OrderRepository (List (Order ℕ)) ℕ
orders = record {
  list_for_customer = λ id cursor n w. repo_ok (take n w);
  list_for_technician = λ id cursor n w. repo_ok (take n w);
  insert = λ o w. (repo_ok tt, o ∷ w);
}

abbrev subjects : QueuePort (List String)
subjects = record { publish = λ s payload q. (good tt, s ∷ q) }

abbrev service : OrderService (List (Order ℕ)) (List String) ℕ (Unit {0})
service = record {
  orders = orders;
  queue = some subjects;
  is_negative = λ d. d == 0;
  encode_after = λ t. some "after";
  to_vec = λ p. some [];
}

abbrev input : CreateOrderInput ℕ (Unit {0})
input = record {
  service_code = "ac";
  customer_id = 4;
  description = "";
  address = "";
  total = 100;
  order_lat = none;
  order_lon = none;
}

abbrev order : Order ℕ
order = record {
  id = 9;
  service_code = "ac";
  customer_id = 4;
  technician_id = none;
  description = "";
  address = "";
  total = 100;
  status = pending;
  created_at = 50;
  updated_at = 50;
}

create_order_run :
    create_order service 50 9 input ([], []) ≡ (repo_ok order, (order ∷ [], "order.dispatch" ∷ []))
unfolding create_order order_of publish
create_order_run = refl

listed_few :
    (id n : ℕ) (cursor : Option String) (items w : List (Order ℕ))
    → orders.list_for_customer id cursor n w ≡ repo_ok items
    → length items ≤ n
listed_few id n cursor items w h =
    let same : take n w ≡ items = ground arith in rw⁻¹ same (omega (arith, length-take n w))
