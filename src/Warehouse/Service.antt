-- ===== src/Warehouse/Service.antt =====
-- backend/internal/warehouse/application/service.go. The order service and `strings.ToUpper` are
-- parameters; `time.Now` and the random UUIDs are arguments.
pub mod Accepting
pub mod Receiving
use cross_border_logistics.Prelude.{
  ℕ, String, Bool, not, ◌&&◌, ◌||◌, ◌==◌, str_eq, Result, ok, err, or_error, true, false,
}
use cross_border_logistics.Prelude.Checks.{◌>>=◌, ◌>>◌, fail_if}
use cross_border_logistics.Go.{trim_space}
use cross_border_logistics.External.{Uuid, Uuids}
use cross_border_logistics.Event.{
  Float, nan, infinite, finite, at_most, is_positive, package_received, PackageReceivedData,
  Envelope, new, Codec,
}
use cross_border_logistics.Warehouse.Domain.{
  status_received, PackageError, package_already_exists, invalid_package_input,
  invalid_tracking_number, invalid_warehouse_code, invalid_package_dimensions, order_not_found,
  order_not_eligible_for_warehouse, internal, Package, OrderWarehouseSummary, Orders, Numerics, Db,
}
use cross_border_logistics.Warehouse.Repository.{
  Call, exists_by_source_tracking_number, create_with_outbox, find_by_id,
}

abbrev pub eligible_order_status : String
eligible_order_status = "WAITING_PURCHASE"

pub record ReceivePackageInput : Type 0 where
  pub order_id : String
  pub source_tracking_number : String
  pub warehouse_code : String
  pub weight_kg : Float
  pub length_cm : Float
  pub width_cm : Float
  pub height_cm : Float
  pub request_id : String

abbrev is_finite : Float → Bool
is_finite (finite m k) = true
is_finite nan = false
is_finite (infinite s) = false

-- `validMeasurement`
unfoldable pub valid_measurement : Float → ℕ → Bool
valid_measurement value maximum = is_positive value && at_most maximum value && is_finite value

-- The results of `uuid.New` in one call of `ReceivePackage`.
pub record Fresh : Type 0 where
  pub package_id : Uuid
  pub event : Uuid

unfoldable pub new_package : ReceivePackageInput → Uuid → String → String → Uuid → ℕ → Package
new_package input order tracking warehouse id now = record {
  id = id;
  order_id = order;
  source_tracking_number = tracking;
  warehouse_code = warehouse;
  weight_kg = input.weight_kg;
  length_cm = input.length_cm;
  width_cm = input.width_cm;
  height_cm = input.height_cm;
  status = status_received;
  received_at = now;
  created_at = now;
  updated_at = now;
}

unfoldable pub received_data : Package → PackageReceivedData
received_data p = record {
  package_id = p.id;
  order_id = p.order_id;
  source_tracking_number = p.source_tracking_number;
  warehouse_code = p.warehouse_code;
  weight_kg = p.weight_kg;
  length_cm = p.length_cm;
  width_cm = p.width_cm;
  height_cm = p.height_cm;
}

module _ (u : Uuids) (c : Codec) (numerics : Numerics) (to_upper : String → String) where
  -- `Get`
  unfoldable pub get : (Call → Bool) → String → Db → Result PackageError Package
  get down id db = do
    k ← or_error (u.parse (trim_space id)) invalid_package_input
    find_by_id c numerics down k db

  -- The first half of `ReceivePackage`: the checks, and what is to be stored.
  unfoldable pub prepare :
      (Call → Bool)
      → Orders
      → Fresh
      → ℕ
      → ReceivePackageInput
      → Db
      → Result PackageError (Package × Envelope)
  prepare down orders fresh now input db = do
    order ← or_error (u.parse (trim_space input.order_id)) invalid_package_input
    let tracking = to_upper (trim_space input.source_tracking_number)
    let warehouse = to_upper (trim_space input.warehouse_code)
    fail_if (str_eq tracking "") invalid_tracking_number
    fail_if (str_eq warehouse "") invalid_warehouse_code
    fail_if
        (not (valid_measurement input.weight_kg 500)
          || not (valid_measurement input.length_cm 500)
          || not (valid_measurement input.width_cm 500)
          || not (valid_measurement input.height_cm 500))
        invalid_package_dimensions
    exists ← exists_by_source_tracking_number c numerics down tracking db
    fail_if exists package_already_exists
    summary ← orders order input.request_id
    fail_if (not (summary.order_id == order)) order_not_found
    fail_if (not (str_eq summary.status eligible_order_status)) order_not_eligible_for_warehouse
    let p = new_package input order tracking warehouse fresh.package_id now
    envelope ←
        or_error
          (new fresh.event package_received order "warehouse-service" now
            (c.marshal_package (received_data p)))
          internal
    ok (p, envelope)

  -- `s.repository.CreateWithOutbox`, and the package that was given to it as the answer.
  store :
      (Call → Bool)
      → Result PackageError (Package × Envelope)
      → Db
      → Result PackageError Package × Db
  store down (err e) db = (err e, db)
  store down (ok (p, envelope)) db =
      let (r, db') = create_with_outbox c numerics down p envelope db in (r >>= (λ _. ok p), db')

  -- `ReceivePackage`
  unfoldable pub receive_package :
      (Call → Bool)
      → Orders
      → Fresh
      → ℕ
      → ReceivePackageInput
      → Db
      → Result PackageError Package × Db
  unfolding store
  receive_package down orders fresh now input db =
      store down (prepare down orders fresh now input db) db
