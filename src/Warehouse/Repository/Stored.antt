-- ===== src/Warehouse/Repository/Stored.antt =====
-- What `CreateWithOutbox` does.
use cross_border_logistics.Prelude.{
  String, Bool, false, none, some, [], ◌∷◌, ◌++◌, ◌≡◌, refl, arith, any, Result, ok, err,
}
use cross_border_logistics.Event.{Float, Envelope, Codec}
use cross_border_logistics.Outbox.Table.{OutboxRow}
use cross_border_logistics.Warehouse.Domain.{PackageError, Package, Numerics, Db}
use cross_border_logistics.Warehouse.Repository.{Call, has_tracking, package_is, create_with_outbox}

-- The row of an event.
abbrev pub event_row : Envelope → String → OutboxRow
event_row e payload = record {
  id = e.event_id;
  aggregate_id = e.aggregate_id;
  event_type = e.event_type;
  payload = payload;
  created_at = e.occurred_at;
  published_at = none;
  attempts = 0;
  last_error = none;
}

-- The row of a package, with the numbers as the columns hold them.
abbrev pub package_row : Package → Float → Float → Float → Float → Package
package_row p weight length width height = record p {
  weight_kg = weight;
  length_cm = length;
  width_cm = width;
  height_cm = height;
}

module _ (c : Codec) (numerics : Numerics) (down : Call → Bool) (p : Package) (e : Envelope) where
  abbrev run : Db → Result PackageError (Unit {0}) × Db
  run = create_with_outbox c numerics down p e

  -- A new package and its event were stored.
  pub record Stored (db db' : Db) : Type 0 where
    pub row : Package
    pub is_row :
        (weight : Float) × (length : Float) × (width : Float) × (height : Float) × (row
          ≡ package_row p weight length width height)
    pub payload : String
    pub encoded : c.marshal_envelope e ≡ some payload
    pub new_id : any (package_is p.id) db.packages ≡ false
    pub new_tracking : any (has_tracking p.source_tracking_number) db.packages ≡ false
    pub stored : db'.packages ≡ db.packages ++ row ∷ []
    pub queued : db'.outbox_events ≡ db.outbox_events ++ event_row e payload ∷ []

  stored_values :
      (db : Db) {db' : Db}
      → run db ≡ (ok tt, db')
      → ((w : Float) × (numerics.weight p.weight_kg ≡ some w))
        × ((w : Float) × (numerics.size p.length_cm ≡ some w))
        × ((w : Float) × (numerics.size p.width_cm ≡ some w))
        × ((w : Float) × (numerics.size p.height_cm ≡ some w))
        × ((s : String) × (c.marshal_envelope e ≡ some s))
  unfolding create_with_outbox
  stored_values db h = (ground arith, ground arith, ground arith, ground arith, ground arith)

  pub create-Stored : (db : Db) {db' : Db} → run db ≡ (ok tt, db') → Stored db db'
  unfolding create_with_outbox
  create-Stored db h =
      let v = stored_values db h in
      record {
        row = package_row p v.0.0 v.1.0 v.2.0 v.3.0;
        is_row = (v.0.0, v.1.0, v.2.0, v.3.0, refl);
        payload = v.4.0;
        encoded = v.4.1;
        new_id = ground arith;
        new_tracking = ground arith;
        stored = ground arith;
        queued = ground arith;
      }

  pub create_refused : (db : Db) (x : PackageError) → (run db).0 ≡ err x → (run db).1 ≡ db
  unfolding create_with_outbox
  create_refused db x h = ground arith
