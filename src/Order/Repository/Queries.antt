-- ===== src/Order/Repository/Queries.antt =====
-- The queries of backend/internal/order/adapters/postgres/repository.go, and its outbox methods.
use cross_border_logistics.Prelude.{
  ℕ, String, Bool, ◌&&◌, ◌||◌, Option, none, some, List, map, ltb, leb, ◌==◌, if◌then◌else◌, find,
  any, keep, sort_by, Result, ok, err,
}
use cross_border_logistics.External.{Uuid, Uuids}
use cross_border_logistics.Outbox.Table.{OutboxRow, select_unpublished, set_published, set_failed}
use cross_border_logistics.Order.Domain.{
  OrderError, order_not_found, internal, OrderItem, Order, TrackingEvent,
}
use cross_border_logistics.Order.Ports.{OrderRow, ItemRow, TrackingRow, Db}
use cross_border_logistics.Order.Repository.{order_is}

pub data Query : Type 0 where
  find_order : Query
  find_items : Query
  check_order : Query
  find_timeline : Query
  fetch_outbox : Query
  mark_published : Query
  mark_failed : Query

-- `ORDER BY created_at,id`
abbrev item_before : ItemRow → ItemRow → Bool
item_before a b = ltb a.created_at b.created_at || a.created_at == b.created_at && leb a.id b.id

-- `ORDER BY occurred_at,created_at,id`
abbrev tracking_before : TrackingRow → TrackingRow → Bool
tracking_before a b =
    ltb a.occurred_at b.occurred_at
    || a.occurred_at == b.occurred_at
      && (ltb a.created_at b.created_at || a.created_at == b.created_at && leb a.id b.id)

module _ (u : Uuids) where
  scan_item : ItemRow → OrderItem
  scan_item row = record {
    id = u.format row.id;
    order_id = u.format row.order_id;
    product_name = row.product_name;
    product_url = row.product_url;
    quantity = row.quantity;
    unit_price_vnd = row.unit_price_vnd;
    total_price_vnd = row.total_price_vnd;
    created_at = row.created_at;
  }

  scan_order : List ItemRow → OrderRow → Order
  unfolding scan_item
  scan_order items row = record {
    id = u.format row.id;
    customer_id = row.customer_id;
    quotation_id = u.format row.quotation_id;
    delivery_address = row.delivery_address;
    total_amount_vnd = row.total_amount_vnd;
    deposit_amount_vnd = row.deposit_amount_vnd;
    remaining_amount_vnd = row.remaining_amount_vnd;
    status = row.status;
    created_at = row.created_at;
    updated_at = row.updated_at;
    items = map scan_item items;
  }

  scan_tracking : TrackingRow → TrackingEvent
  scan_tracking row = record {
    id = u.format row.id;
    order_id = u.format row.order_id;
    status = row.status;
    description = row.description;
    source = row.source;
    occurred_at = row.occurred_at;
    created_at = row.created_at;
  }

  module _ (down : Query → Bool) where
    found_order : Db → Uuid → Option OrderRow → Result OrderError Order
    unfolding scan_order
    found_order db k none = err order_not_found
    found_order db k (some row) =
        if down find_items
        then err internal
        else ok (
            scan_order
              (sort_by item_before (keep (λ (i : ItemRow). i.order_id == k) db.order_items)) row)

    find_by_key : Db → Option Uuid → Result OrderError Order
    unfolding found_order
    find_by_key db none = err internal
    find_by_key db (some k) =
        if down find_order then err internal else found_order db k (find (order_is k) db.orders)

    -- `FindByID`; a text that is no uuid makes the query fail.
    unfoldable pub find_by_id : String → Db → Result OrderError Order
    unfolding find_by_key
    find_by_id id db = find_by_key db (u.column id)

    timeline_of : Db → Option Uuid → Result OrderError (List TrackingEvent)
    unfolding scan_tracking
    timeline_of db none = err internal
    timeline_of db (some k) =
        if down check_order
        then err internal
        else if any (order_is k) db.orders
        then (if down find_timeline
            then err internal
            else ok (
                map scan_tracking (
                  sort_by tracking_before
                    (keep (λ (t : TrackingRow). t.order_id == k) db.tracking_events))))
        else err order_not_found

    -- `FindTimeline`
    unfoldable pub timeline : String → Db → Result OrderError (List TrackingEvent)
    unfolding timeline_of
    timeline id db = timeline_of db (u.column id)

-- `FetchUnpublished`
unfoldable pub fetch_unpublished : Bool → ℕ → Db → Result OrderError (List OutboxRow)
fetch_unpublished failed limit db =
    if failed then err internal else ok (select_unpublished limit db.outbox_events)

-- `MarkPublished`
unfoldable pub mark_published_row : Bool → Uuid → ℕ → Db → Result OrderError (Unit {0}) × Db
mark_published_row failed id at db =
    if failed
    then (err internal, db)
    else (ok tt, record db { outbox_events = set_published id at db.outbox_events })

-- `MarkFailed`
unfoldable pub mark_failed_row : Bool → Uuid → String → Db → Result OrderError (Unit {0}) × Db
mark_failed_row failed id message db =
    if failed
    then (err internal, db)
    else (ok tt, record db { outbox_events = set_failed id message db.outbox_events })
