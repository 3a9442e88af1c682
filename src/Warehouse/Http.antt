-- ===== src/Warehouse/Http.antt =====
-- backend/internal/warehouse/adapters/http/handler.go. The service is a record of operations on a
-- state.
use cross_border_logistics.Prelude.{ℕ, String, Result, ok, err}
use cross_border_logistics.Http.{
  Response, success, failure, Body, refused, followed, one_value, validation_error, not_found,
  invalid_state_code, dependency_error, internal_error, internal_message, invalid_json, one_object,
}
use cross_border_logistics.Warehouse.Domain.{
  PackageError, package_not_found, package_already_exists, invalid_package_input,
  invalid_tracking_number, invalid_warehouse_code, invalid_package_dimensions, order_not_found,
  order_not_eligible_for_warehouse, order_service_unavailable, internal, Package,
}
use cross_border_logistics.Warehouse.Service.{ReceivePackageInput}

-- `Service`
pub record Service (S : Type 0) : Type 0 where
  pub receive_package : ReceivePackageInput → S → Result PackageError Package × S
  pub get : String → S → Result PackageError Package

-- The data of an answer.
pub data Shown : Type 0 where
  health : Shown
  package_of : Package → Shown

invalid : Response Shown
invalid = failure 400 validation_error "package input is invalid"

-- `writeError`
unfoldable pub write_error : PackageError → Response Shown
unfolding invalid
write_error invalid_package_input = invalid
write_error invalid_tracking_number = invalid
write_error invalid_warehouse_code = invalid
write_error invalid_package_dimensions = invalid
write_error order_not_found = failure 404 not_found "order or package was not found"
write_error package_not_found = failure 404 not_found "order or package was not found"
write_error package_already_exists =
    failure 409 "PACKAGE_ALREADY_EXISTS" "source tracking number already has a package"
write_error order_not_eligible_for_warehouse =
    failure 409 invalid_state_code "order cannot receive a package"
write_error order_service_unavailable = failure 502 dependency_error "order service is unavailable"
write_error internal = failure 500 internal_error internal_message

answer : {S : Type 0} → ℕ → Result PackageError Package × S → Response Shown × S
answer status (ok p, s) = (success status (package_of p), s)
answer status (err e, s) = (write_error e, s)

-- A request with a method and path that `New` registers.
pub data Request : Type 0 where
  ask_health : Request
  post_package : Body ReceivePackageInput → Request
  ask_package : String → Request

module _ {S : Type 0} (service : Service S) where
  -- `receive`; the request's id is part of the input
  unfoldable pub receive : Body ReceivePackageInput → S → Response Shown × S
  unfolding answer
  receive refused s = (failure 400 validation_error invalid_json, s)
  receive followed s = (failure 400 validation_error one_object, s)
  receive (one_value input) s = answer 201 (service.receive_package input s)

  -- `New` with `get`
  unfoldable pub serve : Request → S → Response Shown × S
  unfolding receive answer
  serve ask_health s = (success 200 health, s)
  serve (post_package body) s = receive body s
  serve (ask_package id) s = answer 200 (service.get id s, s)
