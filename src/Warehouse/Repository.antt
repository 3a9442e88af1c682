-- ===== src/Warehouse/Repository.antt =====
-- backend/internal/warehouse/adapters/postgres/repository.go, as the order and payment
-- repositories: `down` says which calls of the database fail.
pub mod Stored
use cross_border_logistics.Prelude.{
  ℕ, String, Bool, true, false, ◌||◌, Option, none, some, List, [], ◌∷◌, ◌++◌, ◌==◌, str_eq, any,
  find, if◌then◌else◌, Result, ok, err, Tx, raise, pure, raise_if, gets, modify, ◌>>=◌, ◌>>◌,
  run_tx,
}
use cross_border_logistics.External.{Uuid}
use cross_border_logistics.Event.{Float, Envelope, Codec}
use cross_border_logistics.Outbox.Table.{OutboxRow, select_unpublished, set_published, set_failed}
use cross_border_logistics.Warehouse.Domain.{
  PackageError, package_not_found, package_already_exists, internal, Package, Numerics, Db,
}

pub data Call : Type 0 where
  check_tracking : Call
  begin : Call
  insert_package : Call
  insert_outbox : Call
  commit : Call
  find_package : Call
  fetch_outbox : Call
  mark_outbox : Call

-- Every call succeeds.
abbrev pub up : Call → Bool
up c = false

abbrev pub Action : Type 0 → Type 0
Action A = Tx Db PackageError A

abbrev pub has_tracking : String → Package → Bool
has_tracking tracking p = str_eq p.source_tracking_number tracking

abbrev pub package_is : Uuid → Package → Bool
package_is id p = p.id == id

module _ (c : Codec) (numerics : Numerics) (down : Call → Bool) where
  abbrev call : Call → Action (Unit {0})
  call x = raise_if (down x) internal

  -- `ExistsBySourceTrackingNumber`
  unfoldable pub exists_by_source_tracking_number : String → Db → Result PackageError Bool
  exists_by_source_tracking_number tracking db =
      if down check_tracking then err internal else ok (any (has_tracking tracking) db.packages)

  column : (Float → Option Float) → Float → Action Float
  column f x db = elim (f x) [ none ↦ err internal | some y ↦ ok (y, db) ]

  -- `INSERT INTO packages`, with its checks, its primary key and its unique tracking number
  insert_package_row : Package → Action (Unit {0})
  unfolding column
  insert_package_row p = do
    call insert_package
    weight ← column numerics.weight p.weight_kg
    length ← column numerics.size p.length_cm
    width ← column numerics.size p.width_cm
    height ← column numerics.size p.height_cm
    taken ← gets (λ db.
        any (package_is p.id) db.packages
        || any (has_tracking p.source_tracking_number) db.packages)
    raise_if taken package_already_exists
    modify (λ db. record db {
      packages =
          db.packages
          ++ record p {
            weight_kg = weight;
            length_cm = length;
            width_cm = width;
            height_cm = height;
          }
            ∷ [];
    })

  insert_outbox_row : Envelope → String → Action (Unit {0})
  insert_outbox_row e payload = do
    call insert_outbox
    taken ← gets (λ db. any (λ (r : OutboxRow). r.id == e.event_id) db.outbox_events)
    raise_if taken internal
    modify (λ db. record db {
      outbox_events =
          db.outbox_events
          ++ record {
            id = e.event_id;
            aggregate_id = e.aggregate_id;
            event_type = e.event_type;
            payload = payload;
            created_at = e.occurred_at;
            published_at = none;
            attempts = 0;
            last_error = none;
          }
            ∷ [];
    })

  marshalled : Option String → Action String
  marshalled none = raise internal
  marshalled (some payload) = pure payload

  create_body : Package → Envelope → Action (Unit {0})
  unfolding marshalled insert_package_row insert_outbox_row
  create_body p e = do
    payload ← marshalled (c.marshal_envelope e)
    call begin
    insert_package_row p
    insert_outbox_row e payload
    call commit

  -- `CreateWithOutbox`
  unfoldable pub create_with_outbox : Package → Envelope → Db → Result PackageError (Unit {0}) × Db
  unfolding create_body
  create_with_outbox p e = run_tx (create_body p e)

  found : Option Package → Result PackageError Package
  found none = err package_not_found
  found (some p) = ok p

  -- `FindByID`
  unfoldable pub find_by_id : Uuid → Db → Result PackageError Package
  unfolding found
  find_by_id id db =
      if down find_package then err internal else found (find (package_is id) db.packages)

  -- `FetchUnpublished`
  unfoldable pub fetch_unpublished : ℕ → Db → Result PackageError (List OutboxRow)
  fetch_unpublished limit db =
      if down fetch_outbox then err internal else ok (select_unpublished limit db.outbox_events)

  -- `MarkPublished`
  unfoldable pub mark_published : Uuid → ℕ → Db → Result PackageError (Unit {0}) × Db
  mark_published id at db =
      if down mark_outbox
      then (err internal, db)
      else (ok tt, record db { outbox_events = set_published id at db.outbox_events })

  -- `MarkFailed`
  unfoldable pub mark_failed : Uuid → String → Db → Result PackageError (Unit {0}) × Db
  mark_failed id message db =
      if down mark_outbox
      then (err internal, db)
      else (ok tt, record db { outbox_events = set_failed id message db.outbox_events })
