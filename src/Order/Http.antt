-- ===== src/Order/Http.antt =====
-- backend/internal/order/adapters/http/handler.go. The service is a record of operations on a state.
use cross_border_logistics.Prelude.{String, Option, none, some, List, Result, ok, err}
use cross_border_logistics.Http.{
  Response, success, failure, Body, refused, followed, one_value, validation_error, not_found,
  conflict, invalid_state_code, dependency_error, internal_error, internal_message, invalid_json,
  one_object,
}
use cross_border_logistics.Order.Domain.{
  OrderError, order_not_found, quotation_not_found, quotation_conflict, invalid_input,
  invalid_quotation, customer_mismatch, invalid_transition, dependency, panicked, internal, Order,
  TrackingEvent,
}
use cross_border_logistics.Order.Service.{CreateInput, PaymentSummary, WarehouseSummary}

-- `Service`
pub record Service (S : Type 0) : Type 0 where
  pub create : CreateInput → S → Result OrderError Order × S
  pub get : String → S → Result OrderError Order
  pub timeline : String → S → Result OrderError (List TrackingEvent)
  pub get_payment_summary : String → S → Result OrderError PaymentSummary
  pub get_warehouse_summary : String → S → Result OrderError WarehouseSummary

-- The data of an answer.
pub data Shown : Type 0 where
  health : Shown
  order : Order → Shown
  events : List TrackingEvent → Shown
  payment_summary : PaymentSummary → Shown
  warehouse_summary : WarehouseSummary → Shown

-- `writeError`; a panic of the service ends the connection without an answer, which is `none`.
unfoldable pub write_error : OrderError → Option (Response Shown)
write_error invalid_input = some (failure 400 validation_error "order input is invalid")
write_error order_not_found = some (failure 404 not_found "order or quotation was not found")
write_error quotation_not_found = some (failure 404 not_found "order or quotation was not found")
write_error quotation_conflict = some (failure 409 conflict "quotation already has an order")
write_error customer_mismatch = some (failure 409 conflict "quotation does not belong to customer")
write_error invalid_quotation =
    some (failure 409 invalid_state_code "quotation or order is not in a valid state")
write_error invalid_transition =
    some (failure 409 invalid_state_code "quotation or order is not in a valid state")
write_error dependency = some (failure 502 dependency_error "quotation service is unavailable")
write_error panicked = none
write_error internal = some (failure 500 internal_error internal_message)

-- What was asked for is shown, or the error.
answer : {A : Type 0} → (A → Shown) → Result OrderError A → Option (Response Shown)
answer show (ok a) = some (success 200 (show a))
answer show (err e) = write_error e

created : {S : Type 0} → Result OrderError Order × S → Option (Response Shown) × S
created (ok o, s) = (some (success 201 (order o)), s)
created (err e, s) = (write_error e, s)

-- A request with a method and path that `New` registers.
pub data Request : Type 0 where
  ask_health : Request
  post_order : Body CreateInput → Request
  ask_order : String → Request
  ask_timeline : String → Request
  ask_payment_summary : String → Request
  ask_warehouse_summary : String → Request

module _ {S : Type 0} (service : Service S) where
  -- `create`
  unfoldable pub create_order : Body CreateInput → S → Option (Response Shown) × S
  unfolding created
  create_order refused s = (some (failure 400 validation_error invalid_json), s)
  create_order followed s = (some (failure 400 validation_error one_object), s)
  create_order (one_value input) s = created (service.create input s)

  -- `New` with `get`, `timeline`, `paymentSummary` and `warehouseSummary`
  unfoldable pub serve : Request → S → Option (Response Shown) × S
  unfolding create_order answer
  serve ask_health s = (some (success 200 health), s)
  serve (post_order body) s = create_order body s
  serve (ask_order id) s = (answer order (service.get id s), s)
  serve (ask_timeline id) s = (answer events (service.timeline id s), s)
  serve (ask_payment_summary id) s = (answer payment_summary (service.get_payment_summary id s), s)
  serve (ask_warehouse_summary id) s =
      (answer warehouse_summary (service.get_warehouse_summary id s), s)
