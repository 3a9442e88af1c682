-- ===== src/Payment/History.antt =====
-- The payment service over its life: every table that calls of its repository can lead to, from
-- the empty one. The service stores a payment as pending, and writes by these calls alone, so that
-- their sequences hold those of requests that run side by side.
pub mod Counts
pub mod Kept
pub mod Redelivery
use cross_border_logistics.Prelude.{ℕ, String, Bool, ◌≡◌}
use cross_border_logistics.External.{Uuid, Uuids}
use cross_border_logistics.Payment.Domain.{pending, Payment, OutboxEvent, Db, empty_db}
use cross_border_logistics.Payment.Repository.{
  Call, create, succeed, succeed_callback, mark_published, mark_failed,
}

module _ (u : Uuids) where
  -- One call, in which any calls of the database fail.
  pub data Step (db : Db) : Db → Type 0 where
    created :
        (down : Call → Bool) (p : Payment) → p.status ≡ pending → Step db (create u down p db).1
    marked :
        (down : Call → Bool) (id : String) (outbox : OutboxEvent)
        → Step db (succeed u down id outbox db).1
    called_back :
        (down : Call → Bool) (id event_id : String) (outbox : OutboxEvent)
        → Step db (succeed_callback u down id event_id outbox db).1
    published :
        (down : Call → Bool) (id : Uuid) (at : ℕ) → Step db (mark_published u down id at db).1
    publish_failed :
        (down : Call → Bool) (id : Uuid) (message : String)
        → Step db (mark_failed u down id message db).1

  pub data Reachable : Db → Type 0 where
    start : Reachable empty_db
    next : {db db' : Db} → Reachable db → Step db db' → Reachable db'

  -- What the empty tables have and every step keeps holds of every reachable table.
  pub Reachable_induction :
      (P : Db → Type 0)
      → P empty_db
      → ((db db' : Db) → Step db db' → P db → P db')
      → (db : Db) → Reachable db
      → P db
  Reachable_induction P base keep db start = base
  Reachable_induction P base keep db (next {db = before} r s) =
      keep before db s (Reachable_induction P base keep before r)
