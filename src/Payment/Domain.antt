-- ===== src/Payment/Domain.antt =====
-- backend/internal/payment/domain/payment.go and ports/ports.go, and the tables of
-- backend/migrations/payment.
use cross_border_logistics.Prelude.{ℕ, ℤ, String, Bool, true, false, ◌&&◌, Option, List, []}
use cross_border_logistics.External.{Uuid}
use cross_border_logistics.Outbox.Table.{OutboxRow}

pub data PaymentType : Type 0 where
  deposit : PaymentType
  remaining_balance : PaymentType
  refund : PaymentType

pub data PaymentStatus : Type 0 where
  pending : PaymentStatus
  succeeded : PaymentStatus
  failed : PaymentStatus
  cancelled : PaymentStatus
  refunded : PaymentStatus

abbrev pub currency_vnd : String
currency_vnd = "VND"

pub data PaymentError : Type 0 where
  payment_not_found : PaymentError
  payment_conflict : PaymentError
  invalid_input : PaymentError
  invalid_state : PaymentError
  order_not_found : PaymentError
  dependency : PaymentError
  checkout_unavailable : PaymentError
  -- any other error: of the database, of the encoder
  internal : PaymentError

pub record Payment : Type 0 where
  pub id : String
  pub order_id : String
  pub type : PaymentType
  pub amount_vnd : ℤ
  pub currency : String
  pub status : PaymentStatus
  pub payment_url : String
  pub provider_reference : String
  pub created_at : ℕ
  pub updated_at : ℕ

abbrev pub is_succeeded : PaymentStatus → Bool
is_succeeded succeeded = true
is_succeeded _ = false

abbrev pub is_pending : PaymentStatus → Bool
is_pending pending = true
is_pending _ = false

-- `CanTransition`
unfoldable pub can_transition : PaymentStatus → PaymentStatus → Bool
can_transition from to = is_pending from && is_succeeded to

abbrev pub is_deposit : PaymentType → Bool
is_deposit deposit = true
is_deposit _ = false

abbrev pub is_remaining : PaymentType → Bool
is_remaining remaining_balance = true
is_remaining _ = false

abbrev pub same_type : PaymentType → PaymentType → Bool
same_type deposit t = is_deposit t
same_type remaining_balance t = is_remaining t
same_type refund refund = true
same_type refund _ = false

pub record OrderPaymentSummary : Type 0 where
  pub order_id : String
  pub deposit_amount_vnd : ℤ
  pub remaining_amount_vnd : ℤ
  pub status : String

pub record GatewayTransaction : Type 0 where
  pub reference : String
  pub hosted_url : String

pub record CheckoutForm : Type 0 where
  pub action : String
  pub fields : List (String × String)

-- `PaymentGateway`, which may be a `CheckoutGateway` too; `none` of a result is an error.
pub record Gateway : Type 0 where
  pub create_transaction : String → ℤ → String → Option GatewayTransaction
  pub build_checkout : Option (Payment → Option CheckoutForm)

pub record OutboxEvent : Type 0 where
  pub id : String
  pub aggregate_id : String
  pub event_type : String
  pub payload : String
  pub created_at : ℕ

pub record PaymentRow : Type 0 where
  pub id : Uuid
  pub order_id : Uuid
  pub type : PaymentType
  pub amount_vnd : ℤ
  pub currency : String
  pub status : PaymentStatus
  pub payment_url : String
  pub provider_reference : String
  pub created_at : ℕ
  pub updated_at : ℕ

pub record CallbackRow : Type 0 where
  pub event_id : String
  pub payment_id : Uuid
  pub received_at : ℕ

pub record Db : Type 0 where
  pub payments : List PaymentRow
  pub outbox_events : List OutboxRow
  pub provider_callbacks : List CallbackRow

abbrev pub empty_db : Db
empty_db = record { payments = []; outbox_events = []; provider_callbacks = [] }
