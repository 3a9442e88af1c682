-- ===== src/Warehouse/Service/Receiving.antt =====
-- What `ReceivePackage` does.
use cross_border_logistics.Prelude.{
  ℕ, String, Bool, true, false, some, ◌==◌, ◌≡◌, ◌∙◌, refl, ap, arith, any, any-append_last, str_eq,
  str_eq_self, Result, ok, err,
}
use cross_border_logistics.Go.{trim_space}
use cross_border_logistics.External.{Uuid, Uuids}
use cross_border_logistics.Event.{package_received, Envelope, new, Codec}
use cross_border_logistics.Warehouse.Domain.{
  PackageError, package_already_exists, Package, OrderWarehouseSummary, Orders, Numerics, Db,
}
use cross_border_logistics.Warehouse.Repository.{
  Call, check_tracking, has_tracking, create_with_outbox, exists_by_source_tracking_number,
}
use cross_border_logistics.Warehouse.Service.{
  eligible_order_status, ReceivePackageInput, valid_measurement, Fresh, new_package, received_data,
  prepare, receive_package,
}
use cross_border_logistics.Warehouse.Repository.Stored.{Stored, create-Stored}

module _ (u : Uuids) (c : Codec) (numerics : Numerics) (to_upper : String → String)
    (down : Call → Bool) (orders : Orders) (fresh : Fresh) (now : ℕ)
    (input : ReceivePackageInput) where
  abbrev received : Db → Result PackageError Package × Db
  received = receive_package u c numerics to_upper down orders fresh now input

  abbrev prepared : Db → Result PackageError (Package × Envelope)
  prepared = prepare u c numerics to_upper down orders fresh now input

  -- The checks that a package has passed, and what was made of it.
  pub record Accepted (db : Db) (p : Package) (e : Envelope) : Type 0 where
    pub order : Uuid
    pub order_key : u.parse (trim_space input.order_id) ≡ some order
    pub summary : OrderWarehouseSummary
    pub order_known : orders order input.request_id ≡ ok summary
    pub same_order : (summary.order_id == order) ≡ true
    pub eligible : str_eq summary.status eligible_order_status ≡ true
    pub weight_fits : valid_measurement input.weight_kg 500 ≡ true
    pub length_fits : valid_measurement input.length_cm 500 ≡ true
    pub width_fits : valid_measurement input.width_cm 500 ≡ true
    pub height_fits : valid_measurement input.height_cm 500 ≡ true
    pub is_package :
        p
        ≡ new_package input order
            (to_upper (trim_space input.source_tracking_number))
            (to_upper (trim_space input.warehouse_code))
            fresh.package_id
            now
    pub announces :
        new fresh.event package_received order "warehouse-service" now
          (c.marshal_package (received_data p))
        ≡ some e

  accepted_order :
      (db : Db) (p : Package) (e : Envelope)
      → prepared db ≡ ok (p, e)
      → (k : Uuid) × (u.parse (trim_space input.order_id) ≡ some k)
  unfolding prepare
  accepted_order db p e h = ground arith

  accepted_summary :
      (db : Db) (p : Package) (e : Envelope) (k : Uuid)
      → u.parse (trim_space input.order_id) ≡ some k
      → prepared db ≡ ok (p, e)
      → (s : OrderWarehouseSummary) × (orders k input.request_id ≡ ok s)
  unfolding prepare
  accepted_summary db p e k key h = go (orders k input.request_id) refl
    where
      go :
          (r : Result PackageError OrderWarehouseSummary)
          → orders k input.request_id ≡ r
          → (s : OrderWarehouseSummary) × (orders k input.request_id ≡ ok s)
      go (ok s) x = (s, x)
      go (err y) x = absurd (ground arith)

  prepare-Accepted :
      (db : Db) (p : Package) (e : Envelope) → prepared db ≡ ok (p, e) → Accepted db p e
  unfolding prepare
  prepare-Accepted db p e h =
      let key = accepted_order db p e h in
      let known = accepted_summary db p e key.0 key.1 h in
      record {
        order = key.0;
        order_key = key.1;
        summary = known.0;
        order_known = known.1;
        same_order = ground arith;
        eligible = ground arith;
        weight_fits = ground arith;
        length_fits = ground arith;
        width_fits = ground arith;
        height_fits = ground arith;
        is_package = ground arith;
        announces = ground arith;
      }

  pub record Received (db db' : Db) (p : Package) : Type 0 where
    pub event : Envelope
    pub accepted : Accepted db p event
    pub stored : Stored c numerics down p event db db'

  received_parts :
      (db : Db) (p : Package) {db' : Db}
      → received db ≡ (ok p, db')
      → (e : Envelope) × (prepared db ≡ ok (p, e))
        × (create_with_outbox c numerics down p e db ≡ (ok tt, db'))
  unfolding receive_package
  received_parts db p {db'} h = go (prepared db) refl
    where
      go :
          (r : Result PackageError (Package × Envelope))
          → prepared db ≡ r
          → (e : Envelope) × (prepared db ≡ ok (p, e))
            × (create_with_outbox c numerics down p e db ≡ (ok tt, db'))
      go (err x) k = absurd (ground arith)
      go (ok (q, e)) k = (e, ground arith, ground arith)

  -- A package is received only for the order that the order service knows under its id, in the
  -- status WAITING_PURCHASE, with all four measurements positive and at most 500, under a tracking
  -- number that no stored package has; and then the package and its event are stored together.
  pub receive-Received :
      (db : Db) (p : Package) {db' : Db} → received db ≡ (ok p, db') → Received db db' p
  receive-Received db p h =
      let parts = received_parts db p h in
      record {
        event = parts.0;
        accepted = prepare-Accepted db p parts.0 parts.1;
        stored = create-Stored c numerics down p parts.0 db parts.2;
      }

  -- The tracking number of a package that was received is taken.
  tracking_taken :
      (db : Db) (p : Package) {db' : Db}
      → received db ≡ (ok p, db')
      → any (has_tracking (to_upper (trim_space input.source_tracking_number))) db'.packages ≡ true
  unfolding new_package
  tracking_taken db p h =
      let r = receive-Received db p h in
      let row = r.stored.is_row.4 in
      let same =
        ap (λ (x : Package). x.source_tracking_number) row
        ∙ ap (λ (x : Package). x.source_tracking_number) r.accepted.is_package in
      rw r.stored.stored (
        any-append_last (has_tracking (to_upper (trim_space input.source_tracking_number)))
          db.packages r.stored.row (rw same (str_eq_self _)))

  -- With the lookup up, an input that passes the first checks is refused where its tracking number
  -- is taken.
  pub receive_taken :
      (db : Db) (other : Db) (p : Package) {other' : Db}
      → received other ≡ (ok p, other')
      → any (has_tracking (to_upper (trim_space input.source_tracking_number))) db.packages ≡ true
      → (again : Call → Bool) (orders' : Orders) (fresh' : Fresh) (now' : ℕ)
      → again check_tracking ≡ false
      → receive_package u c numerics to_upper again orders' fresh' now' input db
        ≡ (err package_already_exists, db)
  unfolding receive_package prepare exists_by_source_tracking_number
  receive_taken db other p h taken again orders' fresh' now' works = ground arith

-- Once a package was received, the same input is refused as a duplicate, whatever the order service
-- says then, and the tables stay as they are, if the lookup of the tracking number succeeds.
pub receive_again :
    (u : Uuids) (c : Codec) (numerics : Numerics) (to_upper : String → String)
    (down again : Call → Bool) (orders orders' : Orders) (fresh fresh' : Fresh) (now now' : ℕ)
    (input : ReceivePackageInput) (db : Db) (p : Package) {db' : Db}
    → receive_package u c numerics to_upper down orders fresh now input db ≡ (ok p, db')
    → again check_tracking ≡ false
    → receive_package u c numerics to_upper again orders' fresh' now' input db'
      ≡ (err package_already_exists, db')
receive_again u c numerics to_upper down again orders orders' fresh fresh' now now' input db p {db'}
      h works =
    receive_taken u c numerics to_upper down orders fresh now input db' db p h
      (tracking_taken u c numerics to_upper down orders fresh now input db p h) again orders' fresh'
      now' works
