-- ===== src/Event.antt =====
-- backend/pkg/event/event.go: the envelope of every Kafka event, and the data of each.
-- The encodings of encoding/json are parameters (`Codec`); a raw message is a text.
use cross_border_logistics.Prelude.{
  ℕ, ◌*◌, ◌^◌, ℤ, pos, String, Bool, true, false, Option, none, some, ltb_ℤ, leb_ℤ,
}
use cross_border_logistics.External.{Uuid}

abbrev pub order_created : String
order_created = "order.created.v1"

abbrev pub payment_deposit_succeeded : String
payment_deposit_succeeded = "payment.deposit_succeeded.v1"

abbrev pub payment_remaining_balance_succeeded : String
payment_remaining_balance_succeeded = "payment.remaining_balance_succeeded.v1"

abbrev pub order_status_changed : String
order_status_changed = "order.status_changed.v1"

abbrev pub package_received : String
package_received = "package.received.v1"

-- A float64 that encoding/json can read or write: `m / 2 ^ k`; and the other values.
pub data Float : Type 0 where
  finite : ℤ → ℕ → Float
  nan : Float
  infinite : Bool → Float

-- `x <= 0` and `x <= maximum`; every comparison with NaN fails.
abbrev pub at_most : ℕ → Float → Bool
at_most n (finite m k) = leb_ℤ m (pos (n * 2 ^ k))
at_most n nan = false
at_most n (infinite negative) = negative

-- `x > 0`
abbrev pub is_positive : Float → Bool
is_positive (finite m k) = ltb_ℤ (pos 0) m
is_positive nan = false
is_positive (infinite true) = false
is_positive (infinite false) = true

-- `Envelope`
pub record Envelope : Type 0 where
  pub event_id : Uuid
  pub event_type : String
  pub aggregate_id : Uuid
  pub producer : String
  pub occurred_at : ℕ
  pub payload : String

-- `PaymentDepositSucceededData`, and its alias for the remaining balance
pub record PaymentSucceededData : Type 0 where
  pub payment_id : Uuid
  pub order_id : Uuid
  pub amount_vnd : ℤ
  pub currency : String

pub record OrderStatusChangedData : Type 0 where
  pub order_id : Uuid
  pub previous_status : String
  pub current_status : String
  pub description : String

pub record PackageReceivedData : Type 0 where
  pub package_id : Uuid
  pub order_id : Uuid
  pub source_tracking_number : String
  pub warehouse_code : String
  pub weight_kg : Float
  pub length_cm : Float
  pub width_cm : Float
  pub height_cm : Float

-- `orderCreatedData` of the order service, whose ids are texts
pub record OrderCreatedData : Type 0 where
  pub order_id : String
  pub customer_id : String
  pub quotation_id : String
  pub total_amount_vnd : ℤ
  pub deposit_amount_vnd : ℤ
  pub status : String

-- `paymentSucceededData` of the payment service, whose ids are texts
pub record PaymentSucceededText : Type 0 where
  pub payment_id : String
  pub order_id : String
  pub amount_vnd : ℤ
  pub currency : String

-- `eventEnvelope` of the order and payment services, whose ids are texts
pub record TextEnvelope : Type 0 where
  pub event_id : String
  pub event_type : String
  pub aggregate_id : String
  pub producer : String
  pub occurred_at : ℕ
  pub payload : String

-- `json.Marshal` and `json.Unmarshal` at the types above; `none` is an error.
pub record Codec : Type 0 where
  pub marshal_envelope : Envelope → Option String
  pub unmarshal_envelope : String → Option Envelope
  pub marshal_text_envelope : TextEnvelope → Option String
  pub marshal_status_changed : OrderStatusChangedData → Option String
  pub marshal_order_created : OrderCreatedData → Option String
  pub marshal_payment : PaymentSucceededText → Option String
  pub unmarshal_payment : String → Option PaymentSucceededData
  pub marshal_package : PackageReceivedData → Option String
  pub unmarshal_package : String → Option PackageReceivedData

-- `New`, with the event's fresh id and its data as already marshalled: `none` if that failed.
unfoldable pub new : Uuid → String → Uuid → String → ℕ → Option String → Option Envelope
new id event_type aggregate producer at none = none
new id event_type aggregate producer at (some raw) = some (record {
  event_id = id;
  event_type = event_type;
  aggregate_id = aggregate;
  producer = producer;
  occurred_at = at;
  payload = raw;
})
