-- ===== src/Quotation/Repository/Stored.antt =====
-- A quotation that is stored is read back as it was.
use cross_border_logistics.Prelude.{
  String, Bool, false, Option, some, [], ◌∷◌, ◌++◌, ◌≡◌, arith, any, ok,
}
use cross_border_logistics.External.{Uuid, Uuids}
use cross_border_logistics.Quotation.Domain.{Quotation, Db}
use cross_border_logistics.Quotation.Price.{format_source_price}
use cross_border_logistics.Quotation.Repository.{Call, quotation_is, row_of, create}

module _ (u : Uuids) (numeric : String → Option String) (down : Call → Bool) (q : Quotation) where
  -- The row that was stored.
  pub record Stored (db db' : Db) : Type 0 where
    pub id : Uuid
    pub key : u.column q.id ≡ some id
    pub price : String
    pub column : numeric (format_source_price q.source_price_micros) ≡ some price
    pub is_new : any (quotation_is id) db ≡ false
    pub stored : db' ≡ db ++ row_of u numeric down id price q ∷ []

  stored_values :
      (db : Db) {db' : Db}
      → create u numeric down q db ≡ (ok tt, db')
      → ((k : Uuid) × (u.column q.id ≡ some k))
        × ((t : String) × (numeric (format_source_price q.source_price_micros) ≡ some t))
  unfolding create
  stored_values db h = (ground arith, ground arith)

  pub create-Stored :
      (db : Db) {db' : Db} → create u numeric down q db ≡ (ok tt, db') → Stored db db'
  unfolding create
  create-Stored db h =
      let v = stored_values db h in
      record {
        id = v.0.0;
        key = v.0.1;
        price = v.1.0;
        column = v.1.1;
        is_new = ground arith;
        stored = ground arith;
      }
