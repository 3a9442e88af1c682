-- ===== src/Order/Repository/Create/Stored.antt =====
-- What `Create` of backend/internal/order/adapters/postgres/repository.go does to the tables.
use cross_border_logistics.Prelude.{
  String, Bool, false, any, sym, ap, Option, none, some, List, [], ◌∷◌, ◌++◌, ◌≡◌, ◌⊎◌, ◌∙◌, inl,
  inr, refl, arith, find, Result, ok, err, run_tx, subst, >>=-ok, Option-cases,
}
use cross_border_logistics.External.{Uuid, Uuids}
use cross_border_logistics.Order.Domain.{OrderError, OrderItem, Order, TrackingEvent}
use cross_border_logistics.Order.Ports.{OutboxEvent, OrderRow, Db}
use cross_border_logistics.Order.Repository.{
  Call, begin, check_order, commit, call, key, order_is, insert_tracking_row, insert_outbox_row,
}
use cross_border_logistics.Order.Repository.Create.{
  insert_items, insert_item_row, insert_order_row, create_unless, create_body, create,
}
use cross_border_logistics.Order.Repository.Events.{tracking_row, outbox_row}

-- The columns of a new row that come from the order.
pub record IsRowOf (order : Order) (row : OrderRow) : Type 0 where
  pub customer_id : row.customer_id ≡ order.customer_id
  pub delivery_address : row.delivery_address ≡ order.delivery_address
  pub total_amount_vnd : row.total_amount_vnd ≡ order.total_amount_vnd
  pub deposit_amount_vnd : row.deposit_amount_vnd ≡ order.deposit_amount_vnd
  pub remaining_amount_vnd : row.remaining_amount_vnd ≡ order.remaining_amount_vnd
  pub status : row.status ≡ order.status

-- The other tables of a database stay as they are while items are inserted.
record SameBut (db db' : Db) : Type 0 where
  orders : db'.orders ≡ db.orders
  tracking_events : db'.tracking_events ≡ db.tracking_events
  outbox_events : db'.outbox_events ≡ db.outbox_events
  processed_events : db'.processed_events ≡ db.processed_events

SameBut-trans : {a b c : Db} → SameBut a b → SameBut b c → SameBut a c
SameBut-trans h k = record {
  orders = k.orders ∙ h.orders;
  tracking_events = k.tracking_events ∙ h.tracking_events;
  outbox_events = k.outbox_events ∙ h.outbox_events;
  processed_events = k.processed_events ∙ h.processed_events;
}

module _ (u : Uuids) (down : Call → Bool) where
  insert_item_row-SameBut :
      (item : OrderItem) (db db' : Db)
      → insert_item_row u down item db ≡ ok (tt, db')
      → SameBut db db'
  unfolding insert_item_row
  insert_item_row-SameBut item db db' h = ground arith

  insert_items-SameBut :
      (items : List OrderItem) (db db' : Db)
      → insert_items u down items db ≡ ok (tt, db')
      → SameBut db db'
  unfolding insert_items
  insert_items-SameBut [] db db' h = ground arith
  insert_items-SameBut (item ∷ rest) db db' h =
      let (a, s, first, later) =
        >>=-ok (insert_item_row u down item) (λ _. insert_items u down rest) db (tt, db') h in
      SameBut-trans (insert_item_row-SameBut item db s first)
        (insert_items-SameBut rest s db' later)

  -- What the creation of a new order writes: its row, one tracking event and one outbox row.
  pub record Stored (order : Order) (tracking : TrackingEvent) (outbox : OutboxEvent) (db db' : Db)
      : Type 0 where
    pub row : OrderRow
    pub is_row : IsRowOf order row
    pub tracking_id : Uuid
    pub tracking_order : Uuid
    pub outbox_id : Uuid
    pub aggregate : Uuid
    pub order_key : u.column order.id ≡ some row.id
    pub is_new : any (order_is row.id) db.orders ≡ false
    pub tracking_order_key : u.column tracking.order_id ≡ some tracking_order
    pub aggregate_key : u.column outbox.aggregate_id ≡ some aggregate
    pub orders : db'.orders ≡ db.orders ++ row ∷ []
    pub tracked :
        db'.tracking_events
        ≡ db.tracking_events ++ tracking_row tracking_id tracking_order tracking ∷ []
    pub queued : db'.outbox_events ≡ db.outbox_events ++ outbox_row outbox_id aggregate outbox ∷ []
    pub processed_events : db'.processed_events ≡ db.processed_events

  -- What each insert adds, and the tables that it keeps.
  abbrev AddsOrder : Uuid → Order → Db → Db → Type 0
  AddsOrder k order db db' =
      (row : OrderRow) × IsRowOf order row
      × (row.id ≡ k)
      × (any (order_is k) db.orders ≡ false)
      × (db'.orders ≡ db.orders ++ row ∷ [])
      × (db'.tracking_events ≡ db.tracking_events)
      × (db'.outbox_events ≡ db.outbox_events)
      × (db'.processed_events ≡ db.processed_events)

  abbrev AddsTracking : TrackingEvent → Db → Db → Type 0
  AddsTracking t db db' =
      (k : Uuid) × (order : Uuid) × (u.column t.order_id ≡ some order)
      × (db'.tracking_events ≡ db.tracking_events ++ tracking_row k order t ∷ [])
      × (db'.orders ≡ db.orders)
      × (db'.outbox_events ≡ db.outbox_events)
      × (db'.processed_events ≡ db.processed_events)

  abbrev AddsOutbox : OutboxEvent → Db → Db → Type 0
  AddsOutbox e db db' =
      (k : Uuid) × (aggregate : Uuid) × (u.column e.aggregate_id ≡ some aggregate)
      × (db'.outbox_events ≡ db.outbox_events ++ outbox_row k aggregate e ∷ [])
      × (db'.orders ≡ db.orders)
      × (db'.tracking_events ≡ db.tracking_events)
      × (db'.processed_events ≡ db.processed_events)

  insert_order_row-adds :
      (k : Uuid) (order : Order) (db db' : Db)
      → insert_order_row u down k order db ≡ ok (tt, db')
      → AddsOrder k order db db'
  unfolding insert_order_row
  insert_order_row-adds k order db db' h = elim (Option-cases (u.column order.quotation_id)) [
    | inl bad ↦ absurd (ground arith)
    | inr (quotation, good) ↦ (
      record {
        id = k;
        customer_id = order.customer_id;
        quotation_id = quotation;
        delivery_address = order.delivery_address;
        total_amount_vnd = order.total_amount_vnd;
        deposit_amount_vnd = order.deposit_amount_vnd;
        remaining_amount_vnd = order.remaining_amount_vnd;
        status = order.status;
        created_at = order.created_at;
        updated_at = order.updated_at;
      },
      ground arith,
      refl,
      ground arith,
      ground arith,
      ground arith,
      ground arith,
      ground arith,
    )
  ]

  insert_tracking_row-adds :
      (t : TrackingEvent) (db db' : Db)
      → insert_tracking_row u down t db ≡ ok (tt, db')
      → AddsTracking t db db'
  unfolding insert_tracking_row
  insert_tracking_row-adds t db db' h =
      let k : (k : Uuid) × (u.column t.id ≡ some k) = ground arith in
      let order : (k : Uuid) × (u.column t.order_id ≡ some k) = ground arith in
      (k.0, order.0, order.1, ground arith, ground arith, ground arith, ground arith)

  insert_outbox_row-adds :
      (e : OutboxEvent) (db db' : Db)
      → insert_outbox_row u down e db ≡ ok (tt, db')
      → AddsOutbox e db db'
  unfolding insert_outbox_row
  insert_outbox_row-adds e db db' h =
      let k : (k : Uuid) × (u.column e.id ≡ some k) = ground arith in
      let order : (k : Uuid) × (u.column e.aggregate_id ≡ some k) = ground arith in
      (k.0, order.0, order.1, ground arith, ground arith, ground arith, ground arith)

  call_keeps : (c : Call) (db : Db) {r : Unit {0} × Db} → call u down c db ≡ ok r → r.1 ≡ db
  call_keeps c db h = ground arith

  inserts-Stored :
      (k : Uuid) (order : Order) (tracking : TrackingEvent) (outbox : OutboxEvent)
      (db a b c d db' : Db)
      → u.column order.id ≡ some k
      → AddsOrder k order db a
      → SameBut a b
      → AddsTracking tracking b c
      → AddsOutbox outbox c d
      → db' ≡ d
      → Stored order tracking outbox db db'
  inserts-Stored k order tracking outbox db a b c d db' found
        (row, is_row, same, is_new, r₀, r₁, r₂, r₃) items
        (tracking_id, tracking_order, t, t₀, t₁, t₂, t₃) (outbox_id, aggregate, o, o₀, o₁, o₂, o₃)
        e =
      record {
        row = row;
        is_row = is_row;
        tracking_id = tracking_id;
        tracking_order = tracking_order;
        outbox_id = outbox_id;
        aggregate = aggregate;
        order_key = found ∙ ap some (sym same);
        is_new = rw same is_new;
        tracking_order_key = t;
        aggregate_key = o;
        orders = cc (items.orders);
        tracked = cc (items.tracking_events);
        queued = cc (items.outbox_events);
        processed_events = cc (items.processed_events);
      }

  create_unless-Stored :
      (k : Uuid) (order : Order) (tracking : TrackingEvent) (outbox : OutboxEvent) (db db' : Db)
      → u.column order.id ≡ some k
      → create_unless u down none k order tracking outbox db ≡ ok (tt, db')
      → Stored order tracking outbox db db'
  unfolding create_unless
  create_unless-Stored k order tracking outbox db db' found h =
      let (_, a, first, h₁) = >>=-ok (insert_order_row u down k order) _ db (tt, db') h in
      let (_, b, second, h₂) = >>=-ok (insert_items u down order.items) _ a (tt, db') h₁ in
      let (_, c, third, h₃) = >>=-ok (insert_tracking_row u down tracking) _ b (tt, db') h₂ in
      let (_, d, fourth, h₄) = >>=-ok (insert_outbox_row u down outbox) _ c (tt, db') h₃ in
      inserts-Stored k order tracking outbox db a b c d db' found
        (insert_order_row-adds k order db a first) (insert_items-SameBut order.items a b second)
        (insert_tracking_row-adds tracking b c third) (insert_outbox_row-adds outbox c d fourth)
        (call_keeps commit d h₄)

  abbrev pub Effect : Order → TrackingEvent → OutboxEvent → Db → Db → Type 0
  Effect order tracking outbox db db' = (db' ≡ db) ⊎ Stored order tracking outbox db db'

  -- An order that is there is left as it is.
  create_unless-Effect :
      (o : Option OrderRow) (k : Uuid) (order : Order) (tracking : TrackingEvent)
      (outbox : OutboxEvent) (db db' : Db)
      → u.column order.id ≡ some k
      → create_unless u down o k order tracking outbox db ≡ ok (tt, db')
      → Effect order tracking outbox db db'
  create_unless-Effect none k order tracking outbox db db' found h =
      inr (create_unless-Stored k order tracking outbox db db' found h)
  create_unless-Effect (some row) k order tracking outbox db db' found h =
      inl (unfold create_unless in ground arith)

  key_keeps :
      (text : String) (db : Db) (k : Uuid) (s : Db)
      → key u down text db ≡ ok (k, s)
      → (s ≡ db) × (u.column text ≡ some k)
  unfolding key
  key_keeps text db k s h = (ground arith, ground arith)

  create_body-Effect :
      (order : Order) (tracking : TrackingEvent) (outbox : OutboxEvent) (db db' : Db)
      → create_body u down order tracking outbox db ≡ ok (tt, db')
      → Effect order tracking outbox db db'
  unfolding create_body
  create_body-Effect order tracking outbox db db' h =
      let (_, a, first, h₁) = >>=-ok (call u down begin) _ db (tt, db') h in
      let (_, b, second, h₂) = >>=-ok (call u down check_order) _ a (tt, db') h₁ in
      let (k, s, third, h₃) = >>=-ok (key u down order.id) _ b (tt, db') h₂ in
      let keyed = key_keeps order.id b k s third in
      let same : s ≡ db = keyed.0 ∙ call_keeps check_order a second ∙ call_keeps begin db first in
      subst (λ x. Effect order tracking outbox x db') same
        (create_unless-Effect (find (order_is k) s.orders) k order tracking outbox s db' keyed.1 h₃)

  -- `Create` either leaves the tables alone, as for an error and for an order that is there, or
  -- stores the order with its tracking event and its outbox row, and nothing else but its items.
  pub create-Effect :
      (order : Order) (tracking : TrackingEvent) (outbox : OutboxEvent) (db : Db)
      → Effect order tracking outbox db (create u down order tracking outbox db).1
  unfolding create
  create-Effect order tracking outbox db = go (create_body u down order tracking outbox db) refl
    where
      go :
          (r : Result OrderError (Unit {0} × Db))
          → create_body u down order tracking outbox db ≡ r
          → Effect order tracking outbox db (run_tx (λ _. r) db).1
      go (ok (a, s)) e = create_body-Effect order tracking outbox db s e
      go (err x) e = inl refl
