-- ===== src/Order/Service/Handlers.antt =====
-- The three event handlers of backend/internal/order/application/service.go.
pub mod Effects
use cross_border_logistics.Prelude.{
  ℕ, pos, String, Bool, true, false, not, ◌&&◌, ◌||◌, Option, none, some, ◌==◌, str_eq, leb_ℤ,
  Result, ok, err, or_error, if◌then◌else◌,
}
use cross_border_logistics.Prelude.Checks.{◌>>=◌, ◌>>◌, fail_if}
use cross_border_logistics.Go.{trim_space}
use cross_border_logistics.External.{Uuid, Uuids}
use cross_border_logistics.Event.{
  package_received, payment_deposit_succeeded, payment_remaining_balance_succeeded,
  order_status_changed, at_most, Envelope, PaymentSucceededData, PackageReceivedData, Codec, new,
}
use cross_border_logistics.Order.Domain.{
  OrderStatus, waiting_deposit, waiting_purchase, arrived_foreign_warehouse,
  waiting_remaining_payment, ready_for_domestic_delivery, wire, OrderError, invalid_input, internal,
  TrackingEvent,
}
use cross_border_logistics.Order.Ports.{
  OutboxEvent, ProcessPackageReceived, ProcessPaymentSucceeded, Db,
}
use cross_border_logistics.Order.Repository.{
  Call, process_payment_succeeded, process_remaining_payment_succeeded, process_package_received,
}

abbrev pub deposit_succeeded_tracking_description : String
deposit_succeeded_tracking_description = "Đã nhận tiền cọc, đơn hàng đang chờ mua hàng"

abbrev pub remaining_balance_succeeded_tracking_description : String
remaining_balance_succeeded_tracking_description =
    "Đã nhận đủ 30% còn lại, đơn hàng sẵn sàng giao nội địa"

abbrev pub package_received_tracking_description : String
package_received_tracking_description = "Kiện hàng đã được tiếp nhận tại kho nước ngoài"

-- The ids that `sharedevent.New` and `uuid.NewString` give in one call of a handler.
pub record EventIds : Type 0 where
  pub status_event : Uuid
  pub tracking : Uuid

-- The data of a payment event are in order.
unfoldable pub is_valid_payment : Envelope → PaymentSucceededData → Bool
is_valid_payment envelope data' =
    not (data'.order_id == 0)
    && not (data'.payment_id == 0)
    && not (leb_ℤ data'.amount_vnd (pos 0))
    && str_eq data'.currency "VND"
    && data'.order_id == envelope.aggregate_id

-- The data of a package event are in order.
unfoldable pub is_valid_package : Envelope → PackageReceivedData → Bool
unfolding trim_space
is_valid_package envelope p =
    not (p.package_id == 0)
    && not (p.order_id == 0)
    && p.order_id == envelope.aggregate_id
    && not (str_eq (trim_space p.source_tracking_number) "")
    && not (str_eq (trim_space p.warehouse_code) "")
    && not (at_most 0 p.weight_kg)
    && not (at_most 0 p.length_cm)
    && not (at_most 0 p.width_cm)
    && not (at_most 0 p.height_cm)

-- Hands an input to the repository, or returns the error of its checks.
abbrev pass :
    {I : Type 0}
    → Result OrderError I
    → (I → Db → Result OrderError Bool × Db)
    → Db
    → Result OrderError Bool × Db
pass (ok input) process db = process input db
pass (err e) process db = (err e, db)

module _ (u : Uuids) (c : Codec) where
  -- The outbox event for a change of status.
  status_outbox :
      Uuid → Uuid → OrderStatus → OrderStatus → String → ℕ → Result OrderError OutboxEvent
  unfolding wire new
  status_outbox id order previous current description now = do
    event ←
        or_error
          (new id order_status_changed order "order-service" now (
            c.marshal_status_changed (record {
              order_id = order;
              previous_status = wire previous;
              current_status = wire current;
              description = description;
            })))
          internal
    payload ← or_error (c.marshal_envelope event) internal
    ok (record {
      id = u.format event.event_id;
      aggregate_id = u.format order;
      event_type = event.event_type;
      payload = payload;
      created_at = now;
    })

  status_tracking : Uuid → Uuid → OrderStatus → String → String → ℕ → ℕ → TrackingEvent
  status_tracking id order status description source occurred now = record {
    id = u.format id;
    order_id = u.format order;
    status = status;
    description = description;
    source = source;
    occurred_at = occurred;
    created_at = now;
  }

  -- The input of the repository for a payment of the given kind, from `previous` to `current`.
  payment_input :
      String
      → OrderStatus
      → OrderStatus
      → String
      → EventIds
      → ℕ
      → Envelope
      → Result OrderError ProcessPaymentSucceeded
  unfolding is_valid_payment status_outbox status_tracking
  payment_input expected previous current description ids now envelope = do
    fail_if
        (not (str_eq envelope.event_type expected)
          || not (str_eq envelope.producer "payment-service")
          || envelope.event_id == 0
          || envelope.aggregate_id == 0)
        invalid_input
    payment ← or_error (c.unmarshal_payment envelope.payload) invalid_input
    fail_if (not (is_valid_payment envelope payment)) invalid_input
    outbox ← status_outbox ids.status_event payment.order_id previous current description now
    ok (record {
      event_id = u.format envelope.event_id;
      event_type = envelope.event_type;
      order_id = u.format payment.order_id;
      amount_vnd = payment.amount_vnd;
      processed_at = now;
      tracking =
          status_tracking ids.tracking payment.order_id current description "payment-service" now
            now;
      outbox = outbox;
    })

  package_input : EventIds → ℕ → Envelope → Result OrderError ProcessPackageReceived
  unfolding is_valid_package status_outbox status_tracking
  package_input ids now envelope = do
    fail_if
        (not (str_eq envelope.event_type package_received)
          || not (str_eq envelope.producer "warehouse-service")
          || envelope.event_id == 0
          || envelope.aggregate_id == 0
          || envelope.occurred_at == 0)
        invalid_input
    package' ← or_error (c.unmarshal_package envelope.payload) invalid_input
    fail_if (not (is_valid_package envelope package')) invalid_input
    outbox ←
        status_outbox ids.status_event package'.order_id waiting_purchase arrived_foreign_warehouse
          package_received_tracking_description now
    ok (record {
      event_id = u.format envelope.event_id;
      event_type = envelope.event_type;
      order_id = u.format package'.order_id;
      processed_at = now;
      tracking =
          status_tracking ids.tracking package'.order_id arrived_foreign_warehouse
            package_received_tracking_description "warehouse-service" envelope.occurred_at now;
      outbox = outbox;
    })

  -- `HandlePaymentDepositSucceeded`
  unfoldable pub handle_payment_deposit_succeeded :
      (Call → Bool) → EventIds → ℕ → Envelope → Db → Result OrderError Bool × Db
  unfolding payment_input
  handle_payment_deposit_succeeded down ids now envelope =
      pass
        (payment_input payment_deposit_succeeded waiting_deposit waiting_purchase
          deposit_succeeded_tracking_description ids now envelope)
        (process_payment_succeeded u down)

  -- `HandlePaymentRemainingBalanceSucceeded`
  unfoldable pub handle_payment_remaining_balance_succeeded :
      (Call → Bool) → EventIds → ℕ → Envelope → Db → Result OrderError Bool × Db
  unfolding payment_input
  handle_payment_remaining_balance_succeeded down ids now envelope =
      pass
        (payment_input payment_remaining_balance_succeeded waiting_remaining_payment
          ready_for_domestic_delivery remaining_balance_succeeded_tracking_description ids now
          envelope)
        (process_remaining_payment_succeeded u down)

  -- `HandlePackageReceived`
  unfoldable pub handle_package_received :
      (Call → Bool) → EventIds → ℕ → Envelope → Db → Result OrderError Bool × Db
  unfolding package_input
  handle_package_received down ids now envelope =
      pass (package_input ids now envelope) (process_package_received u down)
