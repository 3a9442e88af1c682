-- ===== src/Order/History/Redelivery.antt =====
-- Events that are delivered again, at any later time.
use cross_border_logistics.Prelude.{
  ℕ, ℤ, String, Bool, true, false, ◌||◌, ◌++◌, [], ◌∷◌, any-append, ◌≡◌, ◌∙◌, sym, ap, inl, inr,
  any, any-append_last, ==_refl, ok, List, subst,
}
use cross_border_logistics.Prelude.Steps.{Steps, Steps-keep}
use cross_border_logistics.External.{Uuid, Uuids}
use cross_border_logistics.Event.{Codec}
use cross_border_logistics.Order.Domain.{
  OrderStatus, waiting_purchase, arrived_foreign_warehouse, ready_for_domestic_delivery,
  TrackingEvent,
}
use cross_border_logistics.Order.Ports.{OutboxEvent, Db}
use cross_border_logistics.Order.Repository.{
  Call, begin, check_processed, commit, process_status_event,
}
use cross_border_logistics.Order.Repository.Queries.{mark_published_row, mark_failed_row}
use cross_border_logistics.Order.Repository.Events.{event_is, process-Applied, process_duplicate}
use cross_border_logistics.Order.Service.Creation.{create_order_effect}
use cross_border_logistics.Order.Service.Handlers.Effects.{
  Moves, deposit-Moves, remaining-Moves, package-Moves,
}
use cross_border_logistics.Order.History.{
  Step, created, deposit_event, remaining_event, package_event, published, publish_failed,
}

-- The event was applied.
abbrev pub IsProcessed : Uuid → Db → Type 0
IsProcessed event db = any (event_is event) db.processed_events ≡ true

any-append_kept :
    {A : Type 0} (p : A → Bool) (xs : List A) (x : A)
    → any p xs ≡ true
    → any p (xs ++ x ∷ []) ≡ true
any-append_kept p xs x h = any-append p xs (x ∷ []) ∙ ap (λ b. b || any p (x ∷ [])) h

module _ (u : Uuids) (c : Codec) (event : Uuid) where
  Moves-IsProcessed :
      (down : Call → Bool) (target : OrderStatus) (db db' : Db)
      → Moves u down target db db'
      → IsProcessed event db
      → IsProcessed event db'
  Moves-IsProcessed down target db db' (inl same) h = subst (IsProcessed event) (sym same) h
  Moves-IsProcessed down target db db' (inr d) h =
      ap (any (event_is event)) d.applied.recorded
      ∙ any-append_kept (event_is event) db.processed_events _ h

  mark_published_row-IsProcessed :
      (failed : Bool) (id : Uuid) (at : ℕ) (db : Db)
      → IsProcessed event db
      → IsProcessed event (mark_published_row failed id at db).1
  unfolding mark_published_row
  mark_published_row-IsProcessed true id at db h = h
  mark_published_row-IsProcessed false id at db h = h

  mark_failed_row-IsProcessed :
      (failed : Bool) (id : Uuid) (message : String) (db : Db)
      → IsProcessed event db
      → IsProcessed event (mark_failed_row failed id message db).1
  unfolding mark_failed_row
  mark_failed_row-IsProcessed true id message db h = h
  mark_failed_row-IsProcessed false id message db h = h

  Step-IsProcessed : (db db' : Db) → Step u c db db' → IsProcessed event db → IsProcessed event db'
  Step-IsProcessed db _ (created q down fresh now input) h =
      elim (create_order_effect u c q down fresh now input db) [
        | inl same ↦ subst (IsProcessed event) (sym same) h
        | inr (p, waits, s) ↦ ap (any (event_is event)) s.processed_events ∙ h
      ]
  Step-IsProcessed db _ (deposit_event down ids now e) h =
      Moves-IsProcessed down waiting_purchase db _ (deposit-Moves u down c ids now e db) h
  Step-IsProcessed db _ (remaining_event down ids now e) h =
      Moves-IsProcessed down ready_for_domestic_delivery db _
        (remaining-Moves u down c ids now e db) h
  Step-IsProcessed db _ (package_event down ids now e) h =
      Moves-IsProcessed down arrived_foreign_warehouse db _ (package-Moves u down c ids now e db) h
  Step-IsProcessed db _ (published failed id at) h =
      mark_published_row-IsProcessed failed id at db h
  Step-IsProcessed db _ (publish_failed failed id message) h =
      mark_failed_row-IsProcessed failed id message db h

-- Once an event was applied, every later delivery under its id, after any requests, events and
-- publishing in between and whatever else it says, is acknowledged as a duplicate and leaves the
-- tables alone, if the calls that it makes succeed.
pub process_redelivered :
    (u : Uuids) (c : Codec) (down again : Call → Bool) (event_id type type' order order' : String)
    (at at' : ℕ) (tracking tracking' : TrackingEvent) (outbox outbox' : OutboxEvent)
    (target target' : OrderStatus) (amount amount' : ℤ) (db later : Db) {db' : Db}
    → process_status_event u down event_id type order at tracking outbox target amount db
      ≡ (ok true, db')
    → Steps (Step u c) db' later
    → again begin ≡ false
    → again check_processed ≡ false
    → again commit ≡ false
    → process_status_event u again event_id type' order' at' tracking' outbox' target' amount' later
      ≡ (ok false, later)
process_redelivered u c down again event_id type type' order order' at at' tracking tracking' outbox
      outbox' target target' amount amount' db later {db'} h steps b r d =
    let a = process-Applied u down event_id type order at tracking outbox target amount db h in
    let now_there : IsProcessed a.event db' =
      rw a.recorded (any-append_last (event_is a.event) db.processed_events _ (==_refl a.event)) in
    process_duplicate u again event_id type' order' at' tracking' outbox' target' amount' later
      a.event a.event_key
      (Steps-keep (Step u c) (IsProcessed a.event) (Step-IsProcessed u c a.event) db' later steps
        now_there)
      b r d
