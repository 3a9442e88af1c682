-- ===== src/Order/Repository/Events.antt =====
-- What `processStatusEvent` of backend/internal/order/adapters/postgres/repository.go does.
use cross_border_logistics.Prelude.{
  ℕ, ℤ, pos, String, Bool, true, false, ◌&&◌, not, Option, none, some, [], ◌∷◌, ◌++◌, ◌==◌, ◌≡◌,
  ◌≢◌, ◌⊎◌, refl, arith, if◌then◌else◌, ltb_ℤ, eq_ℤ, find, any, update_where, Result, ok, err,
  any-update_where, find-any, Option-cases, inl, inr,
}
use cross_border_logistics.External.{Uuid, Uuids}
use cross_border_logistics.Outbox.Table.{OutboxRow}
use cross_border_logistics.Order.Domain.{
  OrderStatus, ready_for_domestic_delivery, status_eq, can_transition, OrderError, order_not_found,
  invalid_input, invalid_transition, TrackingEvent,
}
use cross_border_logistics.Order.Ports.{OutboxEvent, OrderRow, TrackingRow, ProcessedRow, Db}
use cross_border_logistics.Order.Repository.{
  Call, begin, check_processed, commit, order_is, up, process_status_event,
}

abbrev pub event_is : Uuid → ProcessedRow → Bool
event_is k row = row.event_id == k

-- The stored amount that the event has to name.
abbrev pub due : OrderStatus → OrderRow → ℤ
due target row =
    if status_eq target ready_for_domestic_delivery
    then row.remaining_amount_vnd
    else row.deposit_amount_vnd

-- No amount, or the one that is due.
abbrev pub amount_fits : ℤ → OrderStatus → OrderRow → Bool
amount_fits amount target row = not (ltb_ℤ (pos 0) amount && not (eq_ℤ amount (due target row)))

abbrev pub tracking_row : Uuid → Uuid → TrackingEvent → TrackingRow
tracking_row k order t = record {
  id = k;
  order_id = order;
  status = t.status;
  description = t.description;
  source = t.source;
  occurred_at = t.occurred_at;
  created_at = t.created_at;
}

abbrev pub outbox_row : Uuid → Uuid → OutboxEvent → OutboxRow
outbox_row k aggregate e = record {
  id = k;
  aggregate_id = aggregate;
  event_type = e.event_type;
  payload = e.payload;
  created_at = e.created_at;
  published_at = none;
  attempts = 0;
  last_error = none;
}

module _ (u : Uuids) (down : Call → Bool) (event_id event_type order_id : String) (at : ℕ)
    (tracking : TrackingEvent) (outbox : OutboxEvent) (target : OrderStatus) (amount : ℤ) where
  abbrev run : Db → Result OrderError Bool × Db
  run = process_status_event u down event_id event_type order_id at tracking outbox target amount

  -- Unless the event was applied, the tables are as before: after a duplicate, after a refusal, and
  -- after a failure of any call.
  pub process_unchanged : (db : Db) → (run db).0 ≢ ok true → (run db).1 ≡ db
  unfolding process_status_event
  process_unchanged db h = ground arith

  -- What an applied event was, and what it changed.
  pub record Applied (db db' : Db) : Type 0 where
    pub event : Uuid
    pub event_key : u.column event_id ≡ some event
    pub order : Uuid
    pub order_key : u.column order_id ≡ some order
    pub tracking_id : Uuid
    pub tracking_key : u.column tracking.id ≡ some tracking_id
    pub tracking_order : Uuid
    pub tracking_order_key : u.column tracking.order_id ≡ some tracking_order
    pub outbox_id : Uuid
    pub outbox_key : u.column outbox.id ≡ some outbox_id
    pub aggregate : Uuid
    pub aggregate_key : u.column outbox.aggregate_id ≡ some aggregate
    pub row : OrderRow
    pub found : find (order_is order) db.orders ≡ some row
    pub is_new : any (event_is event) db.processed_events ≡ false
    pub paid : amount_fits amount target row ≡ true
    pub legal : can_transition row.status target ≡ true
    pub orders_set :
        db'.orders
        ≡ update_where
            (order_is order)
            (λ r. record r { status = target; updated_at = at })
            db.orders
    pub items_kept : db'.order_items ≡ db.order_items
    pub tracked :
        db'.tracking_events
        ≡ db.tracking_events ++ tracking_row tracking_id tracking_order tracking ∷ []
    pub recorded :
        db'.processed_events
        ≡ db.processed_events
          ++ record { event_id = event; event_type = event_type; processed_at = at } ∷ []
    pub queued : db'.outbox_events ≡ db.outbox_events ++ outbox_row outbox_id aggregate outbox ∷ []

  -- A text that was read as a key.
  abbrev KeyOf : String → Type 0
  KeyOf text = (k : Uuid) × (u.column text ≡ some k)

  process_keys :
      (db : Db) {db' : Db}
      → run db ≡ (ok true, db')
      → KeyOf event_id
        × KeyOf order_id
        × KeyOf tracking.id
        × KeyOf tracking.order_id
        × KeyOf outbox.id
        × KeyOf outbox.aggregate_id
  unfolding process_status_event
  process_keys db h =
      (ground arith, ground arith, ground arith, ground arith, ground arith, ground arith)

  process_row :
      (db : Db) (k : Uuid) {db' : Db}
      → u.column order_id ≡ some k
      → run db ≡ (ok true, db')
      → (row : OrderRow) × (find (order_is k) db.orders ≡ some row)
  unfolding process_status_event
  process_row db k e h = elim (Option-cases (find (order_is k) db.orders)) [
    | inl missing ↦ absurd (ground arith)
    | inr row ↦ row
  ]

  -- An event is applied only if it is new, its order exists, the amount fits and the transition is
  -- legal; then the status, the tracking event, the processed event and the outbox row are written.
  pub process-Applied : (db : Db) {db' : Db} → run db ≡ (ok true, db') → Applied db db'
  unfolding process_status_event
  process-Applied db h =
      let keys = process_keys db h in
      let order = process_row db (keys.1).0 (keys.1).1 h in
      record {
        event = keys.0.0;
        event_key = keys.0.1;
        order = (keys.1).0;
        order_key = (keys.1).1;
        tracking_id = (keys.2).0;
        tracking_key = (keys.2).1;
        tracking_order = (keys.3).0;
        tracking_order_key = (keys.3).1;
        outbox_id = (keys.4).0;
        outbox_key = (keys.4).1;
        aggregate = (keys.5).0;
        aggregate_key = (keys.5).1;
        row = order.0;
        found = order.1;
        is_new = ground arith;
        paid = ground arith;
        legal = ground arith;
        orders_set = ground arith;
        items_kept = ground arith;
        tracked = ground arith;
        recorded = ground arith;
        queued = ground arith;
      }

  -- A call either leaves the tables alone or applies the event.
  pub process_effect : (db : Db) → ((run db).1 ≡ db) ⊎ Applied db (run db).1
  process_effect db = go (run db).0 refl
    where
      go : (r : Result OrderError Bool) → (run db).0 ≡ r → ((run db).1 ≡ db) ⊎ Applied db (run db).1
      go (ok true) e = inr (process-Applied db (λ i. (e i, (run db).1)))
      go (ok false) e = inl (process_unchanged db (λ h. cc))
      go (err x) e = inl (process_unchanged db (λ h. cc))

  -- With the database up, an event that was processed before is acknowledged and changes nothing.
  pub process_duplicate :
      (db : Db) (event : Uuid)
      → u.column event_id ≡ some event
      → any (event_is event) db.processed_events ≡ true
      → down begin ≡ false
      → down check_processed ≡ false
      → down commit ≡ false
      → run db ≡ (ok false, db)
  unfolding process_status_event
  process_duplicate db event e seen b c d = ground arith

-- What the code has to answer to a new event, by the row of its order.
abbrev pub outcome : OrderStatus → ℤ → Option OrderRow → Result OrderError Bool
outcome target amount none = err order_not_found
outcome target amount (some row) =
    if amount_fits amount target row
    then (if can_transition row.status target then ok true else err invalid_transition)
    else err invalid_input

-- With the database up and fresh ids for its rows, the answer to a new event is decided by the row
-- of its order: not found, an amount that is not the one due, an illegal transition, or applied.
pub process-outcome :
    (u : Uuids) (event_id type order_id : String) (at : ℕ) (tracking : TrackingEvent)
    (outbox : OutboxEvent) (target : OrderStatus) (amount : ℤ) (db : Db)
    (event order tracking_id outbox_id : Uuid)
    → u.column event_id ≡ some event
    → u.column order_id ≡ some order
    → u.column tracking.id ≡ some tracking_id
    → u.column tracking.order_id ≡ some order
    → u.column outbox.id ≡ some outbox_id
    → u.column outbox.aggregate_id ≡ some order
    → any (event_is event) db.processed_events ≡ false
    → any (λ (r : TrackingRow). r.id == tracking_id) db.tracking_events ≡ false
    → any (λ (r : OutboxRow). r.id == outbox_id) db.outbox_events ≡ false
    → (process_status_event u up event_id type order_id at tracking outbox target amount db).0
      ≡ outcome target amount (find (order_is order) db.orders)
unfolding process_status_event
process-outcome u event_id type order_id at tracking outbox target amount db event order tracking_id
      outbox_id e o t to b ba new fresh_tracking fresh_outbox =
    elim (Option-cases (find (order_is order) db.orders)) [
      | inl missing ↦ ground arith
      | inr (row, found) ↦ ground (
        arith,
        find-any (order_is order) db.orders row found,
        any-update_where (order_is order) (order_is order)
            (λ (r : OrderRow). record r { status = target; updated_at = at }) (λ r. refl) db.orders,
      )
    ]
