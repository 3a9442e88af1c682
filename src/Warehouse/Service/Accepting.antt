-- ===== src/Warehouse/Service/Accepting.antt =====
-- What `ReceivePackage` accepts.
use cross_border_logistics.Prelude.{ℕ, String}
use cross_border_logistics.Go.{trim_space}
use cross_border_logistics.External.{Uuid, Uuids}
use cross_border_logistics.Event.{package_received, Envelope, Codec}
use cross_border_logistics.Warehouse.Domain.{Package, OrderWarehouseSummary, Orders, Numerics, Db}
use cross_border_logistics.Warehouse.Service.{ReceivePackageInput, Fresh, new_package}

module _ (u : Uuids) (c : Codec) (numerics : Numerics) (to_upper : String → String)
    (orders : Orders) (fresh : Fresh) (now : ℕ) (input : ReceivePackageInput) (db : Db)
    (order : Uuid) (summary : OrderWarehouseSummary) where
  -- The package that is made of the input, and its event.
  abbrev pub new_one : Package
  new_one =
      new_package input order (to_upper (trim_space input.source_tracking_number))
        (to_upper (trim_space input.warehouse_code)) fresh.package_id now

  abbrev pub event_of : String → Envelope
  event_of raw = record {
    event_id = fresh.event;
    event_type = package_received;
    aggregate_id = order;
    producer = "warehouse-service";
    occurred_at = now;
    payload = raw;
  }
