-- ===== src/Warehouse/Domain.antt =====
-- backend/internal/warehouse/domain/package.go and ports/ports.go, and the tables of
-- backend/migrations/warehouse.
use cross_border_logistics.Prelude.{ℕ, String, List, [], Option, Result}
use cross_border_logistics.External.{Uuid}
use cross_border_logistics.Event.{Float}
use cross_border_logistics.Outbox.Table.{OutboxRow}

abbrev pub status_received : String
status_received = "RECEIVED_AT_FOREIGN_WAREHOUSE"

pub data PackageError : Type 0 where
  package_not_found : PackageError
  package_already_exists : PackageError
  invalid_package_input : PackageError
  invalid_tracking_number : PackageError
  invalid_warehouse_code : PackageError
  invalid_package_dimensions : PackageError
  order_not_found : PackageError
  order_not_eligible_for_warehouse : PackageError
  order_service_unavailable : PackageError
  -- any other error: of the database, of the encoder
  internal : PackageError

-- `Package`, which is a row of the table packages too
pub record Package : Type 0 where
  pub id : Uuid
  pub order_id : Uuid
  pub source_tracking_number : String
  pub warehouse_code : String
  pub weight_kg : Float
  pub length_cm : Float
  pub width_cm : Float
  pub height_cm : Float
  pub status : String
  pub received_at : ℕ
  pub created_at : ℕ
  pub updated_at : ℕ

pub record OrderWarehouseSummary : Type 0 where
  pub order_id : Uuid
  pub customer_id : String
  pub status : String
  pub created_at : ℕ

-- `OrderReader`, by the order's id and the request's
abbrev pub Orders : Type 0
Orders = Uuid → String → Result PackageError OrderWarehouseSummary

-- PostgreSQL's columns NUMERIC(10,3) and NUMERIC(10,2) with `CHECK (… > 0)`: the value that is
-- stored for a number, or `none` where the statement fails.
pub record Numerics : Type 0 where
  pub weight : Float → Option Float
  pub size : Float → Option Float

pub record Db : Type 0 where
  pub packages : List Package
  pub outbox_events : List OutboxRow

abbrev pub empty_db : Db
empty_db = record { packages = []; outbox_events = [] }
