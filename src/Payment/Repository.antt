-- ===== src/Payment/Repository.antt =====
-- backend/internal/payment/adapters/postgres/repository.go: the statements of each method, in
-- order. `down` says which calls of the database fail; a failed call is the error `internal`.
pub mod Stored
pub mod Effects
pub mod Success
pub mod Webhook
use cross_border_logistics.Prelude.{
  ℕ, pos, String, Bool, true, false, not, ◌&&◌, ◌||◌, Option, none, some, List, [], ◌∷◌, ◌++◌, ◌==◌,
  str_eq, if◌then◌else◌, ltb_ℤ, find, any, update_where, Result, ok, err, or_error, Tx, pure, raise,
  raise_if, gets, modify, ◌>>=◌, ◌>>◌, run_tx,
}
use cross_border_logistics.External.{Uuid, Uuids}
use cross_border_logistics.Outbox.Table.{OutboxRow, select_unpublished, set_published, set_failed}
use cross_border_logistics.Payment.Domain.{
  PaymentType, PaymentStatus, succeeded, PaymentError, payment_not_found, payment_conflict,
  invalid_state, internal, Payment, is_succeeded, can_transition, is_deposit, is_remaining,
  same_type, OutboxEvent, PaymentRow, CallbackRow, Db,
}

pub data Call : Type 0 where
  begin : Call
  insert_payment : Call
  find_payment : Call
  find_callback : Call
  insert_callback : Call
  update_payment : Call
  insert_outbox : Call
  commit : Call
  fetch_outbox : Call
  mark_outbox : Call

-- Every call succeeds.
abbrev pub up : Call → Bool
up c = false

abbrev pub Action : Type 0 → Type 0
Action A = Tx Db PaymentError A

abbrev pub payment_is : Uuid → PaymentRow → Bool
payment_is k row = row.id == k

-- The rows that the partial unique indexes compare.
abbrev pub deposit_of_order : Uuid → PaymentRow → Bool
deposit_of_order order row = is_deposit row.type && row.order_id == order

abbrev pub remaining_of_order : Uuid → PaymentRow → Bool
remaining_of_order order row = is_remaining row.type && row.order_id == order

module _ (u : Uuids) (down : Call → Bool) where
  abbrev call : Call → Action (Unit {0})
  call c = raise_if (down c) internal

  key : String → Action Uuid
  key text db = elim (u.column text) [ none ↦ err internal | some k ↦ ok (k, db) ]

  -- The columns of `SELECT id::text,order_id::text,…`
  unfoldable pub scan : PaymentRow → Payment
  scan row = record {
    id = u.format row.id;
    order_id = u.format row.order_id;
    type = row.type;
    amount_vnd = row.amount_vnd;
    currency = row.currency;
    status = row.status;
    payment_url = row.payment_url;
    provider_reference = row.provider_reference;
    created_at = row.created_at;
    updated_at = row.updated_at;
  }

  -- `INSERT INTO payments`, with its check, its primary key and its three unique indexes.
  create_body : Payment → Action (Unit {0})
  unfolding key
  create_body p = do
    call insert_payment
    id ← key p.id
    order ← key p.order_id
    raise_if (not (ltb_ℤ (pos 0) p.amount_vnd)) internal
    taken ← gets (λ db. any (payment_is id) db.payments)
    raise_if taken internal
    deposited ← gets (λ db. any (deposit_of_order order) db.payments)
    raise_if (is_deposit p.type && deposited) payment_conflict
    settled ← gets (λ db. any (remaining_of_order order) db.payments)
    raise_if (is_remaining p.type && settled) payment_conflict
    referenced ← gets (λ db.
        any (λ (r : PaymentRow). str_eq r.provider_reference p.provider_reference) db.payments)
    raise_if referenced internal
    modify (λ db. record db {
      payments =
          db.payments
          ++ record {
            id = id;
            order_id = order;
            type = p.type;
            amount_vnd = p.amount_vnd;
            currency = p.currency;
            status = p.status;
            payment_url = p.payment_url;
            provider_reference = p.provider_reference;
            created_at = p.created_at;
            updated_at = p.updated_at;
          }
            ∷ [];
    })

  -- `Create`
  unfoldable pub create : Payment → Db → Result PaymentError (Unit {0}) × Db
  unfolding create_body
  create p = run_tx (create_body p)

  -- `findByID`, in a transaction or not
  find_row : String → Action PaymentRow
  unfolding key
  find_row id = do
    call find_payment
    k ← key id
    row ← gets (λ db. find (payment_is k) db.payments)
    elim row [ none ↦ raise payment_not_found | some r ↦ pure r ]

  -- `FindByID`
  unfoldable pub find_by_id : String → Db → Result PaymentError Payment
  unfolding find_row scan
  find_by_id id db = elim (find_row id db) [ ok (row, s) ↦ ok (scan row) | err e ↦ err e ]

  scan_found : Option PaymentRow → Result PaymentError Payment
  unfolding scan
  scan_found none = err payment_not_found
  scan_found (some row) = ok (scan row)

  find_of_order : Option Uuid → PaymentType → Db → Result PaymentError Payment
  unfolding scan_found
  find_of_order none type db = err internal
  find_of_order (some k) type db =
      scan_found (find (λ (r : PaymentRow). r.order_id == k && same_type r.type type) db.payments)

  -- `FindByOrderIDAndType`
  unfoldable pub find_by_order_id_and_type : String → PaymentType → Db → Result PaymentError Payment
  unfolding find_of_order
  find_by_order_id_and_type order_id type db =
      if down find_payment then err internal else find_of_order (u.column order_id) type db

  -- `FindByProviderReference`
  unfoldable pub find_by_provider_reference : String → Db → Result PaymentError Payment
  unfolding scan_found
  find_by_provider_reference ref db =
      if down find_payment
      then err internal
      else scan_found (find (λ (r : PaymentRow). str_eq r.provider_reference ref) db.payments)

  update_status : String → ℕ → Action (Unit {0})
  unfolding key
  update_status id at = do
    call update_payment
    k ← key id
    modify (λ db. record db {
      payments =
          update_where (payment_is k) (λ r. record r { status = succeeded; updated_at = at })
            db.payments;
    })

  insert_outbox_row : OutboxEvent → Action (Unit {0})
  unfolding key
  insert_outbox_row e = do
    call insert_outbox
    k ← key e.id
    aggregate ← key e.aggregate_id
    taken ← gets (λ db. any (λ (r : OutboxRow). r.id == k) db.outbox_events)
    raise_if taken internal
    modify (λ db. record db {
      outbox_events =
          db.outbox_events
          ++ record {
            id = k;
            aggregate_id = aggregate;
            event_type = e.event_type;
            payload = e.payload;
            created_at = e.created_at;
            published_at = none;
            attempts = 0;
            last_error = none;
          }
            ∷ [];
    })

  -- The rest of `Succeed`, with the row that was locked.
  succeed_row : String → OutboxEvent → PaymentRow → Action (Payment × Bool)
  unfolding scan update_status insert_outbox_row
  succeed_row id outbox row =
      if is_succeeded row.status then (do call commit; pure (scan row, false)) else (do
        raise_if (not (can_transition row.status succeeded)) invalid_state
        update_status id outbox.created_at
        insert_outbox_row outbox
        call commit
        pure (scan (record row { status = succeeded; updated_at = outbox.created_at }), true))

  succeed_body : String → OutboxEvent → Action (Payment × Bool)
  unfolding find_row succeed_row
  succeed_body id outbox = do call begin; row ← find_row id; succeed_row id outbox row

  -- `Succeed`: the payment after it, and whether it has changed.
  unfoldable pub succeed : String → OutboxEvent → Db → Result PaymentError (Payment × Bool) × Db
  unfolding succeed_body
  succeed id outbox = run_tx (succeed_body id outbox)

  insert_callback_row : String → String → ℕ → Action (Unit {0})
  unfolding key
  insert_callback_row event_id id at = do
    call insert_callback
    k ← key id
    taken ← gets (λ db. any (λ (r : CallbackRow). str_eq r.event_id event_id) db.provider_callbacks)
    raise_if taken internal
    modify (λ db. record db {
      provider_callbacks =
          db.provider_callbacks
          ++ record { event_id = event_id; payment_id = k; received_at = at } ∷ [];
    })

  -- `SucceedCallback`, by the callback that is stored under the event id.
  callback_row : Option CallbackRow → String → String → OutboxEvent → Action (Payment × Bool)
  unfolding scan find_row insert_callback_row succeed_row
  callback_row (some seen) id event_id outbox = do
    raise_if (not (str_eq (u.format seen.payment_id) id)) payment_conflict
    row ← find_row id
    call commit
    pure (scan row, false)
  callback_row none id event_id outbox = do
    row ← find_row id
    insert_callback_row event_id id outbox.created_at
    succeed_row id outbox row

  callback_body : String → String → OutboxEvent → Action (Payment × Bool)
  unfolding callback_row
  callback_body id event_id outbox = do
    call begin
    call find_callback
    seen ← gets (λ db. find (λ (r : CallbackRow). str_eq r.event_id event_id) db.provider_callbacks)
    callback_row seen id event_id outbox

  -- `SucceedCallback`
  unfoldable pub succeed_callback :
      String → String → OutboxEvent → Db → Result PaymentError (Payment × Bool) × Db
  unfolding callback_body
  succeed_callback id event_id outbox = run_tx (callback_body id event_id outbox)

  -- `FetchUnpublished`
  unfoldable pub fetch_unpublished : ℕ → Db → Result PaymentError (List OutboxRow)
  fetch_unpublished limit db =
      if down fetch_outbox then err internal else ok (select_unpublished limit db.outbox_events)

  -- `MarkPublished`
  unfoldable pub mark_published : Uuid → ℕ → Db → Result PaymentError (Unit {0}) × Db
  mark_published id at db =
      if down mark_outbox
      then (err internal, db)
      else (ok tt, record db { outbox_events = set_published id at db.outbox_events })

  -- `MarkFailed`
  unfoldable pub mark_failed : Uuid → String → Db → Result PaymentError (Unit {0}) × Db
  mark_failed id message db =
      if down mark_outbox
      then (err internal, db)
      else (ok tt, record db { outbox_events = set_failed id message db.outbox_events })
