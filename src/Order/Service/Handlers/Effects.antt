-- ===== src/Order/Service/Handlers/Effects.antt =====
-- What the three event handlers do to the tables.
use cross_border_logistics.Prelude.{
  ℕ, ℤ, pos, String, Bool, ◌≡◌, ◌⊎◌, inl, inr, refl, arith, Result, ok, err,
}
use cross_border_logistics.External.{Uuids}
use cross_border_logistics.Event.{
  payment_deposit_succeeded, payment_remaining_balance_succeeded, Envelope, Codec,
}
use cross_border_logistics.Order.Domain.{
  OrderStatus, waiting_deposit, waiting_purchase, waiting_remaining_payment,
  arrived_foreign_warehouse, ready_for_domestic_delivery, OrderError, TrackingEvent,
}
use cross_border_logistics.Order.Ports.{
  OutboxEvent, ProcessPackageReceived, ProcessPaymentSucceeded, Db,
}
use cross_border_logistics.Order.Repository.{
  Call, process_status_event, process_payment_succeeded, process_remaining_payment_succeeded,
  process_package_received,
}
use cross_border_logistics.Order.Repository.Events.{Applied, process_effect}
use cross_border_logistics.Order.Service.Handlers.{
  EventIds, deposit_succeeded_tracking_description,
  remaining_balance_succeeded_tracking_description, pass, payment_input, package_input,
  status_tracking, status_outbox, handle_payment_deposit_succeeded,
  handle_payment_remaining_balance_succeeded, handle_package_received,
}

-- A tracking event and an outbox event for a move of an order.
pub record IsMove (order_id : String) (target : OrderStatus) (tracking : TrackingEvent)
    (outbox : OutboxEvent) : Type 0 where
  pub of_order : tracking.order_id ≡ order_id
  pub to_target : tracking.status ≡ target
  pub of_aggregate : outbox.aggregate_id ≡ order_id

-- Some event has moved an order to the target.
pub record Delivered (u : Uuids) (down : Call → Bool) (target : OrderStatus) (db db' : Db)
    : Type 0 where
  pub event_id : String
  pub event_type : String
  pub order_id : String
  pub at : ℕ
  pub tracking : TrackingEvent
  pub outbox : OutboxEvent
  pub amount : ℤ
  pub is_move : IsMove order_id target tracking outbox
  pub applied : Applied u down event_id event_type order_id at tracking outbox target amount db db'

module _ (u : Uuids) (down : Call → Bool) where
  abbrev pub Moves : OrderStatus → Db → Db → Type 0
  Moves target db db' = (db' ≡ db) ⊎ Delivered u down target db db'

  process-Moves :
      (event_id event_type order_id : String) (at : ℕ) (tracking : TrackingEvent)
      (outbox : OutboxEvent) (target : OrderStatus) (amount : ℤ) (db : Db)
      → IsMove order_id target tracking outbox
      → Moves target db
          (process_status_event u down event_id event_type order_id at tracking outbox target amount
            db).1
  process-Moves event_id event_type order_id at tracking outbox target amount db is_move =
      elim (process_effect u down event_id event_type order_id at tracking outbox target amount
        db) [
          | inl same ↦ inl same
          | inr a ↦ inr (record {
            event_id = event_id;
            event_type = event_type;
            order_id = order_id;
            at = at;
            tracking = tracking;
            outbox = outbox;
            amount = amount;
            is_move = is_move;
            applied = a;
          })
        ]

  pass-Moves :
      {I : Type 0} (target : OrderStatus) (r : Result OrderError I)
      (process : I → Db → Result OrderError Bool × Db) (db : Db)
      → ((i : I) → r ≡ ok i → Moves target db (process i db).1)
      → Moves target db (pass r process db).1
  pass-Moves target (ok i) process db h = h i refl
  pass-Moves target (err e) process db h = inl refl

  deposit_input-Moves :
      (i : ProcessPaymentSucceeded) (db : Db)
      → IsMove i.order_id waiting_purchase i.tracking i.outbox
      → Moves waiting_purchase db (process_payment_succeeded u down i db).1
  unfolding process_payment_succeeded
  deposit_input-Moves i db is_move =
      process-Moves i.event_id i.event_type i.order_id i.processed_at i.tracking i.outbox
        waiting_purchase i.amount_vnd db is_move

  remaining_input-Moves :
      (i : ProcessPaymentSucceeded) (db : Db)
      → IsMove i.order_id ready_for_domestic_delivery i.tracking i.outbox
      → Moves ready_for_domestic_delivery db (process_remaining_payment_succeeded u down i db).1
  unfolding process_remaining_payment_succeeded
  remaining_input-Moves i db is_move =
      process-Moves i.event_id i.event_type i.order_id i.processed_at i.tracking i.outbox
        ready_for_domestic_delivery i.amount_vnd db is_move

  package_input-Moves :
      (i : ProcessPackageReceived) (db : Db)
      → IsMove i.order_id arrived_foreign_warehouse i.tracking i.outbox
      → Moves arrived_foreign_warehouse db (process_package_received u down i db).1
  unfolding process_package_received
  package_input-Moves i db is_move =
      process-Moves i.event_id i.event_type i.order_id i.processed_at i.tracking i.outbox
        arrived_foreign_warehouse (pos 0) db is_move

  module _ (c : Codec) (ids : EventIds) (now : ℕ) (e : Envelope) (db : Db) where
    payment_input-IsMove :
        (expected : String) (previous current : OrderStatus) (description : String)
        (i : ProcessPaymentSucceeded)
        → payment_input u c expected previous current description ids now e ≡ ok i
        → IsMove i.order_id current i.tracking i.outbox
    unfolding payment_input status_tracking status_outbox
    payment_input-IsMove expected previous current description i h = record {
      of_order = ground arith;
      to_target = ground arith;
      of_aggregate = ground arith;
    }

    package_input-IsMove :
        (i : ProcessPackageReceived)
        → package_input u c ids now e ≡ ok i
        → IsMove i.order_id arrived_foreign_warehouse i.tracking i.outbox
    unfolding package_input status_tracking status_outbox
    package_input-IsMove i h = record {
      of_order = ground arith;
      to_target = ground arith;
      of_aggregate = ground arith;
    }

    -- A deposit event moves an order to waiting_purchase, or changes nothing.
    pub deposit-Moves :
        Moves waiting_purchase db (handle_payment_deposit_succeeded u c down ids now e db).1
    unfolding handle_payment_deposit_succeeded
    deposit-Moves =
        pass-Moves waiting_purchase
          (payment_input u c payment_deposit_succeeded waiting_deposit waiting_purchase
            deposit_succeeded_tracking_description ids now e)
          (process_payment_succeeded u down) db
          (λ i h.
            deposit_input-Moves i db
              (payment_input-IsMove _ waiting_deposit _ deposit_succeeded_tracking_description i h))

    -- An event for the remaining balance moves an order to ready_for_domestic_delivery, or changes
    -- nothing.
    pub remaining-Moves :
        Moves ready_for_domestic_delivery db
          (handle_payment_remaining_balance_succeeded u c down ids now e db).1
    unfolding handle_payment_remaining_balance_succeeded
    remaining-Moves =
        pass-Moves ready_for_domestic_delivery
          (payment_input u c payment_remaining_balance_succeeded waiting_remaining_payment
            ready_for_domestic_delivery remaining_balance_succeeded_tracking_description ids now e)
          (process_remaining_payment_succeeded u down) db
          (λ i h. remaining_input-Moves i db (
            payment_input-IsMove _ waiting_remaining_payment _
              remaining_balance_succeeded_tracking_description i h))

    -- A package event moves an order to arrived_foreign_warehouse, or changes nothing.
    pub package-Moves :
        Moves arrived_foreign_warehouse db (handle_package_received u c down ids now e db).1
    unfolding handle_package_received
    package-Moves =
        pass-Moves arrived_foreign_warehouse (package_input u c ids now e)
          (process_package_received u down) db
          (λ i h. package_input-Moves i db (package_input-IsMove i h))
