-- ===== src/Tests/Warehouse.antt =====
-- The warehouse service on concrete inputs.
use cross_border_logistics.Prelude.{pos, String, some, ◌≡◌, refl, any, Result, ok, err}
use cross_border_logistics.Event.{finite, new}
use cross_border_logistics.Warehouse.Domain.{
  PackageError, package_already_exists, Package, OrderWarehouseSummary, Orders, Numerics, Db,
  empty_db,
}
use cross_border_logistics.Warehouse.Repository.{
  up, create_with_outbox, exists_by_source_tracking_number,
}
use cross_border_logistics.Warehouse.Service.{
  ReceivePackageInput, Fresh, valid_measurement, new_package, received_data, prepare,
  receive_package,
}
use cross_border_logistics.Warehouse.Service.Receiving.{Received, receive-Received, receive_again}
use cross_border_logistics.Go.{trim_space}
use cross_border_logistics.Tests.World.{letters, codec}

abbrev exact : Numerics
exact = record { weight = λ x. some x; size = λ x. some x }

abbrev same_case : String → String
same_case s = s

abbrev summary : OrderWarehouseSummary
summary = record {
  order_id = b'o';
  customer_id = "customer";
  status = "WAITING_PURCHASE";
  created_at = 1;
}

abbrev waiting : Orders
waiting k request = ok summary

abbrev arrived : Orders
arrived k request = ok (record summary { status = "ARRIVED_FOREIGN_WAREHOUSE" })

abbrev input : ReceivePackageInput
input = record {
  order_id = "o";
  source_tracking_number = " TRACK-1 ";
  warehouse_code = "US";
  weight_kg = finite (pos 3) 1;
  length_cm = finite (pos 40) 0;
  width_cm = finite (pos 500) 0;
  height_cm = finite (pos 10) 0;
  request_id = "r";
}

abbrev fresh : Fresh
fresh = record { package_id = b'p'; event = b'e' }

abbrev received : Result PackageError Package × Db
received = receive_package letters codec exact same_case up waiting fresh 7 input empty_db

abbrev received_package : Package
received_package = record {
  id = b'p';
  order_id = b'o';
  source_tracking_number = "TRACK-1";
  warehouse_code = "US";
  weight_kg = finite (pos 3) 1;
  length_cm = finite (pos 40) 0;
  width_cm = finite (pos 500) 0;
  height_cm = finite (pos 10) 0;
  status = "RECEIVED_AT_FOREIGN_WAREHOUSE";
  received_at = 7;
  created_at = 7;
  updated_at = 7;
}

received_ok : received ≡ (ok received_package, received.1)
unfolding receive_package prepare letters codec exists_by_source_tracking_number create_with_outbox
    valid_measurement new_package received_data new any trim_space
received_ok = refl

receive-Received_example :
    Received letters codec exact same_case up waiting fresh 7 input empty_db received.1
      received_package
receive-Received_example =
    receive-Received letters codec exact same_case up waiting fresh 7 input empty_db
      received_package received_ok

receive_again_example :
    receive_package letters codec exact same_case up arrived fresh 9 input received.1
    ≡ (err package_already_exists, received.1)
receive_again_example =
    receive_again letters codec exact same_case up up waiting arrived fresh fresh 7 9 input empty_db
      received_package received_ok refl
