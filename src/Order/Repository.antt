-- ===== src/Order/Repository.antt =====
-- backend/internal/order/adapters/postgres/repository.go: the statements of each method, in order.
-- `down` says which calls of the database fail; a failed call is the error `internal`.
pub mod Create
pub mod Queries
pub mod Events
use cross_border_logistics.Prelude.{
  ℕ, zero, ℤ, pos, String, Bool, true, false, not, ◌&&◌, Option, none, some, List, [], ◌∷◌, ◌++◌,
  ◌==◌, str_eq, if◌then◌else◌, ltb_ℤ, leb_ℤ, eq_ℤ, find, any, update_where, Result, ok, err, Tx,
  pure, raise, raise_if, gets, modify, ◌>>=◌, ◌>>◌, run_tx,
}
use cross_border_logistics.Outbox.Table.{OutboxRow, select_unpublished, set_published, set_failed}
use cross_border_logistics.External.{Uuid, Uuids}
use cross_border_logistics.Order.Domain.{
  OrderStatus, waiting_purchase, arrived_foreign_warehouse, ready_for_domestic_delivery, status_eq,
  can_transition, OrderError, order_not_found, quotation_conflict, invalid_input,
  invalid_transition, internal, OrderItem, Order, TrackingEvent,
}
use cross_border_logistics.Order.Ports.{
  OutboxEvent, ProcessPackageReceived, ProcessPaymentSucceeded, OrderRow, ItemRow, TrackingRow,
  ProcessedRow, Db,
}

-- The calls of a transaction.
pub data Call : Type 0 where
  begin : Call
  check_processed : Call
  lock_order : Call
  check_order : Call
  insert_order : Call
  insert_item : Call
  update_order : Call
  insert_tracking : Call
  insert_processed : Call
  insert_outbox : Call
  commit : Call

abbrev pub Action : Type 0 → Type 0
Action A = Tx Db OrderError A

abbrev pub order_is : Uuid → OrderRow → Bool
order_is k row = row.id == k

module _ (u : Uuids) (down : Call → Bool) where
  abbrev call : Call → Action (Unit {0})
  call c = raise_if (down c) internal

  -- A text argument of a uuid column.
  key : String → Action Uuid
  key text db = elim (u.column text) [ none ↦ err internal | some k ↦ ok (k, db) ]

  insert_tracking_row : TrackingEvent → Action (Unit {0})
  unfolding key
  insert_tracking_row t = do
    call insert_tracking
    k ← key t.id
    order ← key t.order_id
    taken ← gets (λ db. any (λ (r : TrackingRow). r.id == k) db.tracking_events)
    known ← gets (λ db. any (order_is order) db.orders)
    raise_if taken internal
    raise_if (not known) internal
    modify (λ db. record db {
      tracking_events =
          db.tracking_events
          ++ record {
            id = k;
            order_id = order;
            status = t.status;
            description = t.description;
            source = t.source;
            occurred_at = t.occurred_at;
            created_at = t.created_at;
          }
            ∷ [];
    })

  insert_outbox_row : OutboxEvent → Action (Unit {0})
  unfolding key
  insert_outbox_row e = do
    call insert_outbox
    k ← key e.id
    aggregate ← key e.aggregate_id
    taken ← gets (λ db. any (λ (r : OutboxRow). r.id == k) db.outbox_events)
    raise_if taken internal
    modify (λ db. record db {
      outbox_events =
          db.outbox_events
          ++ record {
            id = k;
            aggregate_id = aggregate;
            event_type = e.event_type;
            payload = e.payload;
            created_at = e.created_at;
            published_at = none;
            attempts = 0;
            last_error = none;
          }
            ∷ [];
    })

  insert_processed_row : Uuid → String → ℕ → Action (Unit {0})
  insert_processed_row k event_type at = do
    call insert_processed
    taken ← gets (λ db. any (λ (r : ProcessedRow). r.event_id == k) db.processed_events)
    raise_if taken internal
    modify (λ db. record db {
      processed_events =
          db.processed_events
          ++ record { event_id = k; event_type = event_type; processed_at = at } ∷ [];
    })

  -- `SELECT … FROM orders WHERE id=$1 FOR UPDATE`
  lock_row : Uuid → Action OrderRow
  lock_row k = do
    call lock_order
    row ← gets (λ db. find (order_is k) db.orders)
    elim row [ none ↦ raise order_not_found | some r ↦ pure r ]

  update_status : Uuid → OrderStatus → ℕ → Action (Unit {0})
  update_status k target at = do
    call update_order
    modify (λ db. record db {
      orders =
          update_where (order_is k) (λ r. record r { status = target; updated_at = at }) db.orders;
    })

  -- The rest of `processStatusEvent`, for an event that is new. `amount` is `expectedAmount`.
  apply_status_event :
      Uuid → String → Uuid → ℕ → TrackingEvent → OutboxEvent → OrderStatus → ℤ → Action Bool
  unfolding lock_row update_status insert_tracking_row insert_processed_row insert_outbox_row
  apply_status_event event event_type order at tracking outbox target amount = do
    row ← lock_row order
    let stored =
        if status_eq target ready_for_domestic_delivery
        then row.remaining_amount_vnd
        else row.deposit_amount_vnd
    raise_if (ltb_ℤ (pos 0) amount && not (eq_ℤ amount stored)) invalid_input
    raise_if (not (can_transition row.status target)) invalid_transition
    update_status order target at
    insert_tracking_row tracking
    insert_processed_row event event_type at
    insert_outbox_row outbox
    call commit
    pure true

  -- `processStatusEvent`, up to its commit.
  status_event :
      String → String → String → ℕ → TrackingEvent → OutboxEvent → OrderStatus → ℤ → Action Bool
  unfolding key apply_status_event
  status_event event_id event_type order_id at tracking outbox target amount = do
    call begin
    call check_processed
    event ← key event_id
    processed ← gets (λ db. any (λ (r : ProcessedRow). r.event_id == event) db.processed_events)
    if processed then (do call commit; pure false) else (do
      order ← key order_id
      apply_status_event event event_type order at tracking outbox target amount)

  unfoldable pub process_status_event :
      String
      → String
      → String
      → ℕ
      → TrackingEvent
      → OutboxEvent
      → OrderStatus
      → ℤ
      → Db
      → Result OrderError Bool × Db
  unfolding status_event
  process_status_event event_id event_type order_id at tracking outbox target amount =
      run_tx (status_event event_id event_type order_id at tracking outbox target amount)

  -- `ProcessPaymentSucceeded`
  unfoldable pub process_payment_succeeded :
      ProcessPaymentSucceeded → Db → Result OrderError Bool × Db
  unfolding process_status_event
  process_payment_succeeded input =
      process_status_event input.event_id input.event_type input.order_id input.processed_at
        input.tracking input.outbox waiting_purchase input.amount_vnd

  -- `ProcessRemainingPaymentSucceeded`
  unfoldable pub process_remaining_payment_succeeded :
      ProcessPaymentSucceeded → Db → Result OrderError Bool × Db
  unfolding process_status_event
  process_remaining_payment_succeeded input =
      process_status_event input.event_id input.event_type input.order_id input.processed_at
        input.tracking input.outbox ready_for_domestic_delivery input.amount_vnd

  -- `ProcessPackageReceived`
  unfoldable pub process_package_received :
      ProcessPackageReceived → Db → Result OrderError Bool × Db
  unfolding process_status_event
  process_package_received input =
      process_status_event input.event_id input.event_type input.order_id input.processed_at
        input.tracking input.outbox arrived_foreign_warehouse (pos 0)

-- Every call of the database succeeds.
abbrev pub up : Call → Bool
up c = false
