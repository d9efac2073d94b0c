-- ===== src/Payment/Types.antt =====
-- The data of payments: crates/domain/src/payment.rs, and the ports that the payment service calls
-- (crates/domain/src/traits/payment.rs), over the state `P` behind them.
use Prim.Native.String
use kokkeak_api.Prelude.{ℕ, String, none, some, true, false, Option, Bool, List}

pub data PaymentStatus : Type 0 where
  pending authorized captured failed refunded : PaymentStatus

unfoldable pub status_str : PaymentStatus → String
status_str pending = "pending"
status_str authorized = "authorized"
status_str captured = "captured"
status_str failed = "failed"
status_str refunded = "refunded"

unfoldable pub is_settled : PaymentStatus → Bool
is_settled pending = false
is_settled authorized = false
is_settled captured = true
is_settled failed = false
is_settled refunded = true

pub record Payment (D : Type 0) : Type 0 where
  pub id : ℕ
  pub order_id : ℕ
  pub customer_id : ℕ
  pub amount : D
  pub gateway_ref : String
  pub status : PaymentStatus
  pub currency : String
  pub created_at : ℕ
  pub updated_at : ℕ

pub record Commission (D : Type 0) : Type 0 where
  pub id : ℕ
  pub order_id : ℕ
  pub technician_id : ℕ
  pub gross : D
  pub amount : D
  pub rate : D
  pub net_to_tech : D
  pub computed_at : ℕ

pub data PayoutStatus : Type 0 where
  payout_pending queued paid payout_failed : PayoutStatus

pub payout_str : PayoutStatus → String
payout_str payout_pending = "pending"
payout_str queued = "queued"
payout_str paid = "paid"
payout_str payout_failed = "failed"

pub record Payout (D : Type 0) : Type 0 where
  pub id : ℕ
  pub technician_id : ℕ
  pub order_id : ℕ
  pub amount : D
  pub status : PayoutStatus
  pub created_at : ℕ
  pub updated_at : ℕ

pub data PaymentError : Type 0 where
  order_not_payable not_found : ℕ → PaymentError
  invalid_amount backend : String → PaymentError

pub data PaymentRepoError : Type 0 where
  row_not_found backend_error : String → PaymentRepoError

-- The text that `thiserror` derives.
pub to_string : PaymentRepoError → String
to_string (row_not_found s) = String.◌++◌ "not found: " s
to_string (backend_error s) = String.◌++◌ "payment backend error: " s

pub repo_err : PaymentRepoError → PaymentError
repo_err e = backend (to_string e)

-- What a port returns.
pub data Answer (E A : Type 0) : Type 0 where
  good : A → Answer E A
  bad : E → Answer E A

pub record PaymentRepository (P D : Type 0) : Type 0 where
  pub insert_payment : Payment D → P → Answer PaymentRepoError (Unit {0}) × P
  pub find_payment : ℕ → P → Answer PaymentRepoError (Option (Payment D))
  pub find_payment_by_order : ℕ → P → Answer PaymentRepoError (Option (Payment D))
  pub list_payments_for_customer : ℕ → ℕ → P → Answer PaymentRepoError (List (Payment D))
  pub update_payment_status :
      ℕ → PaymentStatus → Option String → P → Answer PaymentRepoError (Unit {0}) × P
  pub insert_commission : Commission D → P → Answer PaymentRepoError (Unit {0}) × P
  pub insert_payout : Payout D → P → Answer PaymentRepoError (Unit {0}) × P
  pub list_payouts :
      Option ℕ → Option PayoutStatus → ℕ → P → Answer PaymentRepoError (List (Payout D))
  pub update_payout_status : ℕ → PayoutStatus → P → Answer PaymentRepoError (Unit {0}) × P

-- The operations of rust_decimal that the code calls. `display` is the text of a number.
pub record Decimals (D : Type 0) : Type 0 where
  pub zero_d : D
  pub one_d : D
  pub half : D
  pub lt : D → D → Bool
  pub times : D → D → D
  pub minus : D → D → D
  pub round_dp_2 : D → D
  pub display : D → String

-- A method of the service: what was written before an error stays written.
abbrev pub Method : Type 0 → Type 0 → Type 0
Method P A = P → Answer PaymentError A × P

infixl 5 ◌>>=◌ ◌>>◌
abbrev pub ◌>>=◌ : {P A B : Type 0} → Method P A → (A → Method P B) → Method P B
◌>>=◌ m f w = let (r, w') = m w in elim r [ good a ↦ f a w' | bad e ↦ (bad e, w') ]

abbrev pub ◌>>◌ : {P A B : Type 0} → Method P A → Method P B → Method P B
m >> k = m >>= λ _. k

abbrev pub pure : {P A : Type 0} → A → Method P A
pure a w = (good a, w)

abbrev pub raise : {P A : Type 0} → PaymentError → Method P A
raise e w = (bad e, w)

-- `ok_or(PaymentError::…)`
abbrev pub some_or : {P A : Type 0} → PaymentError → Option A → Method P A
some_or e none = raise e
some_or e (some a) = pure a

-- A read or a write of the repository, with `map_err(repo_err)`.
abbrev pub read : {P A : Type 0} → (P → Answer PaymentRepoError A) → Method P A
read f w = elim (f w) [ good a ↦ (good a, w) | bad e ↦ (bad (repo_err e), w) ]

abbrev pub write : {P A : Type 0} → (P → Answer PaymentRepoError A × P) → Method P A
write f w = let (r, w') = f w in elim r [ good a ↦ (good a, w') | bad e ↦ (bad (repo_err e), w') ]
