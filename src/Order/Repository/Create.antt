-- ===== src/Order/Repository/Create.antt =====
-- `Create` of backend/internal/order/adapters/postgres/repository.go, with the constraints of
-- backend/migrations/order that the inserts meet.
pub mod Stored
use cross_border_logistics.Prelude.{
  ℕ, pos, String, Bool, true, not, ◌&&◌, ◌||◌, Option, none, some, List, [], ◌∷◌, ◌++◌, ◌==◌,
  str_eq, ltb_ℤ, find, any, Result, ok, err, pure, raise, raise_if, gets, modify, ◌>>=◌, ◌>>◌,
  run_tx,
}
use cross_border_logistics.External.{Uuid, Uuids}
use cross_border_logistics.Order.Domain.{
  OrderError, quotation_conflict, internal, OrderItem, Order, TrackingEvent,
}
use cross_border_logistics.Order.Ports.{OutboxEvent, OrderRow, ItemRow, Db}
use cross_border_logistics.Order.Repository.{
  Call, begin, check_order, insert_order, insert_item, commit, Action, order_is, call, key,
  insert_tracking_row, insert_outbox_row,
}

module _ (u : Uuids) (down : Call → Bool) where
  -- The checks of the columns, the primary key, and `orders_quotation_id_key`.
  insert_order_row : Uuid → Order → Action (Unit {0})
  unfolding key
  insert_order_row k order = do
    call u down insert_order
    quotation ← key u down order.quotation_id
    raise_if
        (not (ltb_ℤ (pos 0) order.total_amount_vnd)
          || ltb_ℤ order.deposit_amount_vnd (pos 0)
          || ltb_ℤ order.remaining_amount_vnd (pos 0))
        internal
    taken ← gets (λ db. any (order_is k) db.orders)
    raise_if taken internal
    ordered ← gets (λ db. any (λ (r : OrderRow). r.quotation_id == quotation) db.orders)
    raise_if ordered quotation_conflict
    modify (λ db. record db {
      orders =
          db.orders
          ++ record {
            id = k;
            customer_id = order.customer_id;
            quotation_id = quotation;
            delivery_address = order.delivery_address;
            total_amount_vnd = order.total_amount_vnd;
            deposit_amount_vnd = order.deposit_amount_vnd;
            remaining_amount_vnd = order.remaining_amount_vnd;
            status = order.status;
            created_at = order.created_at;
            updated_at = order.updated_at;
          }
            ∷ [];
    })

  insert_item_row : OrderItem → Action (Unit {0})
  unfolding key
  insert_item_row item = do
    call u down insert_item
    k ← key u down item.id
    order ← key u down item.order_id
    raise_if
        (not (ltb_ℤ (pos 0) item.quantity)
          || ltb_ℤ (pos 2147483647) item.quantity
          || ltb_ℤ item.unit_price_vnd (pos 0)
          || not (ltb_ℤ (pos 0) item.total_price_vnd))
        internal
    taken ← gets (λ db. any (λ (r : ItemRow). r.id == k) db.order_items)
    known ← gets (λ db. any (order_is order) db.orders)
    raise_if (taken || not known) internal
    modify (λ db. record db {
      order_items =
          db.order_items
          ++ record {
            id = k;
            order_id = order;
            product_name = item.product_name;
            product_url = item.product_url;
            quantity = item.quantity;
            unit_price_vnd = item.unit_price_vnd;
            total_price_vnd = item.total_price_vnd;
            created_at = item.created_at;
          }
            ∷ [];
    })

  -- The loop over `order.Items`.
  insert_items : List OrderItem → Action (Unit {0})
  unfolding insert_item_row
  insert_items [] = pure tt
  insert_items (item ∷ rest) = do insert_item_row item; insert_items rest

  -- With the row that the first query found, if any.
  create_unless : Option OrderRow → Uuid → Order → TrackingEvent → OutboxEvent → Action (Unit {0})
  unfolding insert_order_row insert_items insert_tracking_row insert_outbox_row
  create_unless (some row) k order tracking outbox = do
    raise_if (not (str_eq (u.format row.quotation_id) order.quotation_id)) quotation_conflict
    call u down commit
  create_unless none k order tracking outbox = do
    insert_order_row k order
    insert_items order.items
    insert_tracking_row u down tracking
    insert_outbox_row u down outbox
    call u down commit

  create_body : Order → TrackingEvent → OutboxEvent → Action (Unit {0})
  unfolding key create_unless
  create_body order tracking outbox = do
    call u down begin
    call u down check_order
    k ← key u down order.id
    existing ← gets (λ db. find (order_is k) db.orders)
    create_unless existing k order tracking outbox

  -- `Create`
  unfoldable pub create :
      Order → TrackingEvent → OutboxEvent → Db → Result OrderError (Unit {0}) × Db
  unfolding create_body
  create order tracking outbox = run_tx (create_body order tracking outbox)
