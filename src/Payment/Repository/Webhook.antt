-- ===== src/Payment/Repository/Webhook.antt =====
-- The webhook's idempotence: a callback stays stored under its event id, and its payment with it.
use cross_border_logistics.Prelude.{
  String, Bool, true, false, some, ◌≡◌, ◌∙◌, sym, ap, subst, inl, inr, refl, str_eq, str_eq_self,
  find, any, ok, find-any, any-find, any-update_where, find-append_last, Option-cases,
}
use cross_border_logistics.External.{Uuid, Uuids}
use cross_border_logistics.Payment.Domain.{Payment, OutboxEvent, PaymentRow, CallbackRow, Db}
use cross_border_logistics.Payment.Repository.{Call, payment_is, succeed_callback}
use cross_border_logistics.Payment.Repository.Success.{
  callback_is, stored_callback, paid_at, callback-Recorded, callback-Paid, callback_seen,
  callback_seen_same, callback_found, callback_unchanged, is_change,
}

-- An answered callback stays stored under its event id, for its payment, if the id of the payment
-- is a text that the database would print.
pub callback_stored :
    (u : Uuids) (down : Call → Bool) (k : Uuid) (event_id : String) (outbox : OutboxEvent) (db : Db)
    (p : Payment) (changed : Bool) {db' : Db}
    → u.column (u.format k) ≡ some k
    → succeed_callback u down (u.format k) event_id outbox db ≡ (ok (p, changed), db')
    → (seen : CallbackRow) × (find (callback_is event_id) db'.provider_callbacks ≡ some seen)
      × (str_eq (u.format seen.payment_id) (u.format k) ≡ true)
callback_stored u down k event_id outbox db p changed {db'} canonical h =
    elim (Option-cases (find (callback_is event_id) db.provider_callbacks)) [
      | inl new ↦
          (let r = callback-Recorded u down (u.format k) outbox event_id db p changed new h in
            let row = stored_callback event_id r.payment outbox.created_at in
            let same : some r.payment ≡ some k = sym r.payment_key ∙ canonical in
            let behind =
              find-append_last (callback_is event_id) db.provider_callbacks row new
                (str_eq_self event_id) in
            let key : r.payment ≡ k = cc in
            (row, rw r.recorded behind, rw key (str_eq_self (u.format k))))
      | inr (seen, found) ↦
          (let kept = callback_seen u down (u.format k) outbox event_id db seen found in
            let same : db' ≡ db = cc in
            (
              seen,
              rw same (found),
              callback_seen_same u down (u.format k) outbox event_id db seen p changed found h,
            ))
    ]

-- Its payment is still there.
pub callback_payment :
    (u : Uuids) (down : Call → Bool) (k : Uuid) (event_id : String) (outbox : OutboxEvent) (db : Db)
    (p : Payment) (changed : Bool) {db' : Db}
    → u.column (u.format k) ≡ some k
    → succeed_callback u down (u.format k) event_id outbox db ≡ (ok (p, changed), db')
    → (row : PaymentRow) × (find (payment_is k) db'.payments ≡ some row)
callback_payment u down k event_id outbox db p changed {db'} canonical h =
    let found = callback_found u down (u.format k) outbox event_id db p changed k canonical h in
    let here = find-any (payment_is k) db.payments found.0 found.1 in
    any-find (payment_is k) db'.payments (go changed h here)
  where
    go :
        (changed : Bool)
        → succeed_callback u down (u.format k) event_id outbox db ≡ (ok (p, changed), db')
        → any (payment_is k) db.payments ≡ true
        → any (payment_is k) db'.payments ≡ true
    go true h here = elim (Option-cases (find (callback_is event_id) db.provider_callbacks)) [
      | inl new ↦
          (let paid = callback-Paid u down (u.format k) outbox event_id db p new h in
            rw paid.payments_set (
              any-update_where (payment_is k) (payment_is paid.payment) (paid_at outbox.created_at)
                (λ r. refl) db.payments
              ∙ here))
      | inr (seen, found) ↦
          (let kept = callback_seen u down (u.format k) outbox event_id db seen found in
            let same : db' ≡ db = cc in rw same (here))
    ]
    go false h here =
        let kept =
          callback_unchanged u down (u.format k) outbox event_id db (ap (λ r. is_change r.0) h) in
        subst (λ (x : Db). any (payment_is k) x.payments ≡ true) (ap (λ r. r.1) h)
          (rw kept.0 (here))
