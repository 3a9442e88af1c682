-- ===== src/Order/Ports.antt =====
-- backend/internal/order/ports/ports.go and the tables of backend/migrations/order.
use cross_border_logistics.Prelude.{ℕ, ℤ, String, List, []}
use cross_border_logistics.Outbox.Table.{OutboxRow}
use cross_border_logistics.External.{Uuid}
use cross_border_logistics.Order.Domain.{OrderStatus, TrackingEvent}

pub record QuotationSnapshot : Type 0 where
  pub quotation_id : String
  pub customer_id : String
  pub product_url : String
  pub product_name : String
  pub quantity : ℤ
  pub total_amount_vnd : ℤ
  pub status : String
  pub created_at : ℕ

pub record OutboxEvent : Type 0 where
  pub id : String
  pub aggregate_id : String
  pub event_type : String
  pub payload : String
  pub created_at : ℕ

pub record ProcessPackageReceived : Type 0 where
  pub event_id : String
  pub event_type : String
  pub order_id : String
  pub processed_at : ℕ
  pub tracking : TrackingEvent
  pub outbox : OutboxEvent

pub record ProcessPaymentSucceeded : Type 0 where
  pub event_id : String
  pub event_type : String
  pub order_id : String
  pub amount_vnd : ℤ
  pub processed_at : ℕ
  pub tracking : TrackingEvent
  pub outbox : OutboxEvent

-- Rows of the tables.
pub record OrderRow : Type 0 where
  pub id : Uuid
  pub customer_id : String
  pub quotation_id : Uuid
  pub delivery_address : String
  pub total_amount_vnd : ℤ
  pub deposit_amount_vnd : ℤ
  pub remaining_amount_vnd : ℤ
  pub status : OrderStatus
  pub created_at : ℕ
  pub updated_at : ℕ

pub record ItemRow : Type 0 where
  pub id : Uuid
  pub order_id : Uuid
  pub product_name : String
  pub product_url : String
  pub quantity : ℤ
  pub unit_price_vnd : ℤ
  pub total_price_vnd : ℤ
  pub created_at : ℕ

pub record TrackingRow : Type 0 where
  pub id : Uuid
  pub order_id : Uuid
  pub status : OrderStatus
  pub description : String
  pub source : String
  pub occurred_at : ℕ
  pub created_at : ℕ

pub record ProcessedRow : Type 0 where
  pub event_id : Uuid
  pub event_type : String
  pub processed_at : ℕ

pub record Db : Type 0 where
  pub orders : List OrderRow
  pub order_items : List ItemRow
  pub tracking_events : List TrackingRow
  pub outbox_events : List OutboxRow
  pub processed_events : List ProcessedRow

abbrev pub empty_db : Db
empty_db = record {
  orders = [];
  order_items = [];
  tracking_events = [];
  outbox_events = [];
  processed_events = [];
}
