-- ===== src/Order/History.antt =====
-- The order service over its life: every table that calls of the service, deliveries of events and
-- the outbox worker can lead to, from the empty one.
pub mod Audit
pub mod Recreated
pub mod Redelivery
pub mod Statuses
pub mod Timeline
use cross_border_logistics.Prelude.{ℕ, String, Bool}
use cross_border_logistics.External.{Uuid, Uuids}
use cross_border_logistics.Event.{Envelope, Codec}
use cross_border_logistics.Order.Ports.{Db, empty_db}
use cross_border_logistics.Order.Repository.{Call}
use cross_border_logistics.Order.Repository.Queries.{mark_published_row, mark_failed_row}
use cross_border_logistics.Order.Service.{CreateInput, Quotations, Fresh, create_order}
use cross_border_logistics.Order.Service.Handlers.{
  EventIds, handle_payment_deposit_succeeded, handle_payment_remaining_balance_succeeded,
  handle_package_received,
}

module _ (u : Uuids) (c : Codec) where
  -- One operation on the tables, with any calls of the database failing.
  pub data Step (db : Db) : Db → Type 0 where
    created :
        (q : Quotations) (down : Call → Bool) (fresh : Fresh) (now : ℕ) (input : CreateInput)
        → Step db (create_order u c q down fresh now input db).1
    deposit_event :
        (down : Call → Bool) (ids : EventIds) (now : ℕ) (e : Envelope)
        → Step db (handle_payment_deposit_succeeded u c down ids now e db).1
    remaining_event :
        (down : Call → Bool) (ids : EventIds) (now : ℕ) (e : Envelope)
        → Step db (handle_payment_remaining_balance_succeeded u c down ids now e db).1
    package_event :
        (down : Call → Bool) (ids : EventIds) (now : ℕ) (e : Envelope)
        → Step db (handle_package_received u c down ids now e db).1
    published :
        (failed : Bool) (id : Uuid) (at : ℕ) → Step db (mark_published_row failed id at db).1
    publish_failed :
        (failed : Bool) (id : Uuid) (message : String)
        → Step db (mark_failed_row failed id message db).1

  pub data Reachable : Db → Type 0 where
    start : Reachable empty_db
    next : {db db' : Db} → Reachable db → Step db db' → Reachable db'

  -- What the empty tables have and every step keeps holds of every reachable table.
  pub Reachable_induction :
      (P : Db → Type 0)
      → P empty_db
      → ((db db' : Db) → Step db db' → P db → P db')
      → (db : Db) → Reachable db
      → P db
  Reachable_induction P base keep db start = base
  Reachable_induction P base keep db (next {db = before} r s) =
      keep before db s (Reachable_induction P base keep before r)
