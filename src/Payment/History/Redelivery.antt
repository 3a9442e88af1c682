-- ===== src/Payment/History/Redelivery.antt =====
-- Callbacks and requests that come again, at any later time.
use cross_border_logistics.Prelude.{
  ℕ, String, Bool, false, Option, some, ◌≡◌, refl, str_eq, find, any-find, find-any, ok, err,
  eq_iff,
}
use cross_border_logistics.Prelude.Steps.{Steps, Steps-keep}
use cross_border_logistics.External.{Uuid, Uuids}
use cross_border_logistics.Payment.Domain.{
  PaymentType, payment_conflict, Payment, OutboxEvent, Gateway, PaymentRow, Db,
}
use cross_border_logistics.Payment.Repository.{
  Call, begin, find_callback, find_payment, commit, payment_is, scan, succeed_callback,
}
use cross_border_logistics.Payment.Repository.Success.{callback_repeated, callback_again}
use cross_border_logistics.Payment.Repository.Webhook.{callback_stored, callback_payment}
use cross_border_logistics.Payment.Service.{Orders, create_payment}
use cross_border_logistics.Payment.Service.Creation.{of_order, has_payment, create_existing, parsed}
use cross_border_logistics.Payment.History.{Step}
use cross_border_logistics.Payment.History.Kept.{
  HasPayment, HasCallback, Step-HasPayment, Step-HasCallback,
}

-- Once a callback was answered, every later one under its event id, after any calls of the
-- repository in between and if the calls that it makes succeed, leaves the tables alone: it is
-- answered without a change if it names the same payment, and refused as a conflict if it names
-- another. The payment's id is a text that the database prints.
pub callback_redelivered :
    (u : Uuids) (down again : Call → Bool) (k : Uuid) (event_id other : String)
    (outbox outbox' : OutboxEvent) (db later : Db) (p : Payment) (changed : Bool) {db' : Db}
    → u.column (u.format k) ≡ some k
    → str_eq (u.format k) other ≡ false
    → succeed_callback u down (u.format k) event_id outbox db ≡ (ok (p, changed), db')
    → Steps (Step u) db' later
    → again begin ≡ false
    → again find_callback ≡ false
    → again find_payment ≡ false
    → again commit ≡ false
    → ((q : Payment) × (succeed_callback u again (u.format k) event_id outbox' later
          ≡ (ok (q, false), later)))
      × (succeed_callback u again other event_id outbox' later ≡ (err payment_conflict, later))
callback_redelivered u down again k event_id other outbox outbox' db later p changed {db'} canonical
      differs h steps b c f d =
    let stored = callback_stored u down k event_id outbox db p changed canonical h in
    let paid = callback_payment u down k event_id outbox db p changed canonical h in
    let seen =
      Steps-keep (Step u) (HasCallback event_id stored.0) (Step-HasCallback u event_id stored.0) db'
        later steps stored.1 in
    let kept =
      Steps-keep (Step u) (HasPayment (payment_is k))
        (Step-HasPayment u (payment_is k) (λ at r. refl)) db' later steps
        (find-any (payment_is k) db'.payments paid.0 paid.1) in
    let row = any-find (payment_is k) later.payments kept in
    let same = eq_iff (u.format stored.0.payment_id) (u.format k) in
    (
      (
        _,
        callback_again u again (u.format k) outbox' event_id later stored.0 k row.0 seen canonical
            row.1 stored.2 b c f d,
      ),
      callback_repeated u again other outbox' event_id later stored.0 seen b c
          (rw (same.0 stored.2) (differs)),
    )

-- Once a payment of a type was answered for an order, every later request for both, after any calls
-- of the repository in between and whatever the order service and the gateway say then, is answered
-- with a stored payment and writes nothing, if the call of the database succeeds.
pub create_again :
    (u : Uuids) (down again : Call → Bool) (orders orders' : Orders)
    (gateway gateway' : Option Gateway) (order_id : String) (type : PaymentType)
    (expected expected' : String) (fresh fresh' : Uuid) (now now' : ℕ) (db later : Db) (p : Payment)
    {db' : Db}
    → create_payment u down orders gateway order_id type expected fresh now db ≡ (ok p, db')
    → Steps (Step u) db' later
    → again find_payment ≡ false
    → (row : PaymentRow) × (k : Uuid) × (u.column order_id ≡ some k)
      × (find (of_order k type) later.payments ≡ some row)
      × (create_payment u again orders' gateway' order_id type expected' fresh' now' later
          ≡ (ok (scan u again row), later))
create_again u down again orders orders' gateway gateway' order_id type expected expected' fresh
      fresh' now now' db later p {db'} h steps works =
    let key = parsed u down orders gateway order_id type expected fresh now db p h in
    let there = has_payment u down orders gateway order_id type expected fresh now db p h in
    let kept =
      Steps-keep (Step u) (HasPayment (of_order there.0 type))
        (Step-HasPayment u (of_order there.0 type) (λ at r. refl)) db' later steps there.2 in
    let row = any-find (of_order there.0 type) later.payments kept in
    (
      row.0,
      there.0,
      there.1,
      row.1,
      create_existing u order_id type again orders' gateway' expected' fresh' key.0 there.0 now'
          later row.0 key.1 there.1 row.1 works,
    )
