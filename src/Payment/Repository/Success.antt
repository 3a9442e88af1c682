-- ===== src/Payment/Repository/Success.antt =====
-- What `Succeed` and `SucceedCallback` of
-- backend/internal/payment/adapters/postgres/repository.go do.
use cross_border_logistics.Prelude.{
  ℕ, String, Bool, true, none, some, [], ◌∷◌, ◌++◌, ◌≡◌, inl, inr, arith, str_eq, find,
  update_where, Result, ok, Option-cases, err, false,
}
use cross_border_logistics.External.{Uuid, Uuids}
use cross_border_logistics.Outbox.Table.{OutboxRow}
use cross_border_logistics.Payment.Domain.{
  succeeded, PaymentError, Payment, can_transition, OutboxEvent, PaymentRow, CallbackRow, Db,
  payment_conflict,
}
use cross_border_logistics.Payment.Repository.{
  Call, payment_is, succeed, succeed_callback, begin, find_callback, find_payment, commit, scan,
}

abbrev pub outbox_row : Uuid → Uuid → OutboxEvent → OutboxRow
outbox_row k aggregate e = record {
  id = k;
  aggregate_id = aggregate;
  event_type = e.event_type;
  payload = e.payload;
  created_at = e.created_at;
  published_at = none;
  attempts = 0;
  last_error = none;
}

abbrev pub paid_at : ℕ → PaymentRow → PaymentRow
paid_at at r = record r { status = succeeded; updated_at = at }

abbrev pub callback_is : String → CallbackRow → Bool
callback_is event_id r = str_eq r.event_id event_id

abbrev pub stored_callback : String → Uuid → ℕ → CallbackRow
stored_callback event_id k at = record { event_id = event_id; payment_id = k; received_at = at }

-- Whether a call reports a change.
abbrev pub is_change : Result PaymentError (Payment × Bool) → Bool
is_change (ok (p, changed)) = changed
is_change (err e) = false

module _ (u : Uuids) (down : Call → Bool) (id : String) (outbox : OutboxEvent) where
  -- A text that was read as a key.
  abbrev KeyOf : String → Type 0
  KeyOf text = (k : Uuid) × (u.column text ≡ some k)

  -- A pending payment has become a succeeded one, with one outbox row.
  pub record Paid (db db' : Db) : Type 0 where
    pub payment : Uuid
    pub payment_key : u.column id ≡ some payment
    pub row : PaymentRow
    pub found : find (payment_is payment) db.payments ≡ some row
    pub legal : can_transition row.status succeeded ≡ true
    pub outbox_id : Uuid
    pub aggregate : Uuid
    pub payments_set :
        db'.payments ≡ update_where (payment_is payment) (paid_at outbox.created_at) db.payments
    pub queued : db'.outbox_events ≡ db.outbox_events ++ outbox_row outbox_id aggregate outbox ∷ []

  succeed_keys :
      (db : Db) (p : Payment) {db' : Db}
      → succeed u down id outbox db ≡ (ok (p, true), db')
      → KeyOf id × KeyOf outbox.id × KeyOf outbox.aggregate_id
  unfolding succeed
  succeed_keys db p h = (ground arith, ground arith, ground arith)

  succeed_found :
      (db : Db) (p : Payment) (k : Uuid) {db' : Db}
      → u.column id ≡ some k
      → succeed u down id outbox db ≡ (ok (p, true), db')
      → (row : PaymentRow) × (find (payment_is k) db.payments ≡ some row)
  unfolding succeed
  succeed_found db p k e h = elim (Option-cases (find (payment_is k) db.payments)) [
    | inl missing ↦ absurd (ground arith)
    | inr row ↦ row
  ]

  -- `Succeed` reports a change only where a payment that may succeed has become a succeeded one.
  pub succeed-Paid :
      (db : Db) (p : Payment) {db' : Db}
      → succeed u down id outbox db ≡ (ok (p, true), db')
      → Paid db db' × (db'.provider_callbacks ≡ db.provider_callbacks)
  unfolding succeed
  succeed-Paid db p h =
      let keys = succeed_keys db p h in
      let row = succeed_found db p keys.0.0 keys.0.1 h in
      (
        record {
          payment = keys.0.0;
          payment_key = keys.0.1;
          row = row.0;
          found = row.1;
          legal = ground arith;
          outbox_id = (keys.1).0;
          aggregate = (keys.2).0;
          payments_set = ground arith;
          queued = ground arith;
        },
        ground arith,
      )

  -- Unless `Succeed` reports a change, the tables are as before, whichever calls failed.
  pub succeed_unchanged :
      (db : Db)
      → is_change (succeed u down id outbox db).0 ≡ false
      → (succeed u down id outbox db).1 ≡ db
  unfolding succeed
  succeed_unchanged db h = ground arith

  module _ (event_id : String) where
    abbrev callback : Db → Result PaymentError (Payment × Bool) × Db
    callback = succeed_callback u down id event_id outbox

    -- The callback is stored for the payment, behind the others.
    pub record Recorded (db db' : Db) : Type 0 where
      pub payment : Uuid
      pub payment_key : u.column id ≡ some payment
      pub recorded :
          db'.provider_callbacks
          ≡ db.provider_callbacks
            ++ record { event_id = event_id; payment_id = payment; received_at = outbox.created_at }
              ∷ []

    -- A callback with a stored event id writes nothing.
    pub callback_seen :
        (db : Db) (seen : CallbackRow)
        → find (callback_is event_id) db.provider_callbacks ≡ some seen
        → (callback db).1 ≡ db
    unfolding succeed_callback
    callback_seen db seen h = ground arith

    -- It is answered only for the payment it was stored for.
    pub callback_seen_same :
        (db : Db) (seen : CallbackRow) (p : Payment) (changed : Bool) {db' : Db}
        → find (callback_is event_id) db.provider_callbacks ≡ some seen
        → callback db ≡ (ok (p, changed), db')
        → str_eq (u.format seen.payment_id) id ≡ true
    unfolding succeed_callback
    callback_seen_same db seen p changed h e = ground arith

    callback_keys :
        (db : Db) (p : Payment) (changed : Bool) {db' : Db}
        → find (callback_is event_id) db.provider_callbacks ≡ none
        → callback db ≡ (ok (p, changed), db')
        → KeyOf id
    unfolding succeed_callback
    callback_keys db p changed new h = ground arith

    callback_outbox_keys :
        (db : Db) (p : Payment) {db' : Db}
        → find (callback_is event_id) db.provider_callbacks ≡ none
        → callback db ≡ (ok (p, true), db')
        → KeyOf outbox.id × KeyOf outbox.aggregate_id
    unfolding succeed_callback
    callback_outbox_keys db p new h = (ground arith, ground arith)

    -- An answered callback names a payment that is there.
    pub callback_found :
        (db : Db) (p : Payment) (changed : Bool) (k : Uuid) {db' : Db}
        → u.column id ≡ some k
        → callback db ≡ (ok (p, changed), db')
        → (row : PaymentRow) × (find (payment_is k) db.payments ≡ some row)
    unfolding succeed_callback
    callback_found db p changed k e h = elim (Option-cases (find (payment_is k) db.payments)) [
      | inl missing ↦ absurd (ground arith)
      | inr row ↦ row
    ]

    -- A new callback that is answered is stored.
    pub callback-Recorded :
        (db : Db) (p : Payment) (changed : Bool) {db' : Db}
        → find (callback_is event_id) db.provider_callbacks ≡ none
        → callback db ≡ (ok (p, changed), db')
        → Recorded db db'
    unfolding succeed_callback
    callback-Recorded db p changed new h =
        let key = callback_keys db p changed new h in
        record { payment = key.0; payment_key = key.1; recorded = ground arith }

    -- If it reports a change, a payment has become a succeeded one.
    pub callback-Paid :
        (db : Db) (p : Payment) {db' : Db}
        → find (callback_is event_id) db.provider_callbacks ≡ none
        → callback db ≡ (ok (p, true), db')
        → Paid db db'
    unfolding succeed_callback
    callback-Paid db p new h =
        let key = callback_keys db p true new h in
        let keys = callback_outbox_keys db p new h in
        let row = callback_found db p true key.0 key.1 h in
        record {
          payment = key.0;
          payment_key = key.1;
          row = row.0;
          found = row.1;
          legal = ground arith;
          outbox_id = keys.0.0;
          aggregate = (keys.1).0;
          payments_set = ground arith;
          queued = ground arith;
        }

    -- If it does not, payments and outbox are as before, whichever calls failed.
    pub callback_unchanged :
        (db : Db)
        → is_change (callback db).0 ≡ false
        → ((callback db).1.payments ≡ db.payments)
          × ((callback db).1.outbox_events ≡ db.outbox_events)
    unfolding succeed_callback
    callback_unchanged db h = (ground arith, ground arith)

    -- With the database up, a repeated callback is answered for its payment and refused for others.
    pub callback_repeated :
        (db : Db) (seen : CallbackRow)
        → find (callback_is event_id) db.provider_callbacks ≡ some seen
        → down begin ≡ false
        → down find_callback ≡ false
        → str_eq (u.format seen.payment_id) id ≡ false
        → callback db ≡ (err payment_conflict, db)
    unfolding succeed_callback
    callback_repeated db seen h b c e = ground arith

    -- With the database up, it is answered without a change for its payment.
    pub callback_again :
        (db : Db) (seen : CallbackRow) (k : Uuid) (row : PaymentRow)
        → find (callback_is event_id) db.provider_callbacks ≡ some seen
        → u.column id ≡ some k
        → find (payment_is k) db.payments ≡ some row
        → str_eq (u.format seen.payment_id) id ≡ true
        → down begin ≡ false
        → down find_callback ≡ false
        → down find_payment ≡ false
        → down commit ≡ false
        → callback db ≡ (ok (scan u down row, false), db)
    unfolding succeed_callback scan
    callback_again db seen k row h e f same a b c d = ground arith
