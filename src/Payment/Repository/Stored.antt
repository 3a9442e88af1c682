-- ===== src/Payment/Repository/Stored.antt =====
-- What `Create` of backend/internal/payment/adapters/postgres/repository.go does.
use cross_border_logistics.Prelude.{
  Bool, false, some, [], ◌∷◌, ◌++◌, ◌≡◌, ◌⊎◌, inl, inr, refl, arith, ◌&&◌, any, Result, ok, err,
}
use cross_border_logistics.External.{Uuid, Uuids}
use cross_border_logistics.Payment.Domain.{
  PaymentError, Payment, is_deposit, is_remaining, PaymentRow, Db,
}
use cross_border_logistics.Payment.Repository.{
  Call, payment_is, deposit_of_order, remaining_of_order, create,
}

-- The row of a payment.
abbrev pub payment_row : Uuid → Uuid → Payment → PaymentRow
payment_row id order p = record {
  id = id;
  order_id = order;
  type = p.type;
  amount_vnd = p.amount_vnd;
  currency = p.currency;
  status = p.status;
  payment_url = p.payment_url;
  provider_reference = p.provider_reference;
  created_at = p.created_at;
  updated_at = p.updated_at;
}

module _ (u : Uuids) (down : Call → Bool) (p : Payment) where
  -- A payment was stored, and no other stood in its way.
  pub record Stored (db db' : Db) : Type 0 where
    pub id : Uuid
    pub order : Uuid
    pub order_key : u.column p.order_id ≡ some order
    pub is_new : any (payment_is id) db.payments ≡ false
    pub one_deposit : (is_deposit p.type && any (deposit_of_order order) db.payments) ≡ false
    pub one_remaining : (is_remaining p.type && any (remaining_of_order order) db.payments) ≡ false
    pub stored : db'.payments ≡ db.payments ++ payment_row id order p ∷ []
    pub queue_kept : db'.outbox_events ≡ db.outbox_events
    pub callbacks_kept : db'.provider_callbacks ≡ db.provider_callbacks

  create_keys :
      (db : Db) {db' : Db}
      → create u down p db ≡ (ok tt, db')
      → ((k : Uuid) × (u.column p.id ≡ some k)) × ((k : Uuid) × (u.column p.order_id ≡ some k))
  unfolding create
  create_keys db h = (ground arith, ground arith)

  pub create-Stored : (db : Db) {db' : Db} → create u down p db ≡ (ok tt, db') → Stored db db'
  unfolding create
  create-Stored db h =
      let keys = create_keys db h in
      record {
        id = keys.0.0;
        order = (keys.1).0;
        order_key = (keys.1).1;
        is_new = ground arith;
        one_deposit = ground arith;
        one_remaining = ground arith;
        stored = ground arith;
        queue_kept = ground arith;
        callbacks_kept = ground arith;
      }

  -- A refused payment leaves the tables alone.
  pub create_refused :
      (db : Db) (e : PaymentError) → (create u down p db).0 ≡ err e → (create u down p db).1 ≡ db
  unfolding create
  create_refused db e h = ground arith

  pub create_effect : (db : Db) → ((create u down p db).1 ≡ db) ⊎ Stored db (create u down p db).1
  create_effect db = go (create u down p db).0 refl
    where
      go :
          (r : Result PaymentError (Unit {0}))
          → (create u down p db).0 ≡ r
          → ((create u down p db).1 ≡ db) ⊎ Stored db (create u down p db).1
      go (ok tt) e = inr (create-Stored db (λ i. (e i, (create u down p db).1)))
      go (err x) e = inl (create_refused db x e)
