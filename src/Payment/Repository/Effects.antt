-- ===== src/Payment/Repository/Effects.antt =====
-- `Succeed` and `SucceedCallback`: what either call can have done to payments and outbox.
use cross_border_logistics.Prelude.{
  String, Bool, true, false, none, ◌≡◌, ◌⊎◌, inl, inr, refl, ap, find, Result, ok, err,
  Option-cases,
}
use cross_border_logistics.External.{Uuids}
use cross_border_logistics.Payment.Domain.{PaymentError, Payment, OutboxEvent, Db}
use cross_border_logistics.Payment.Repository.{Call, succeed, succeed_callback}
use cross_border_logistics.Payment.Repository.Success.{
  callback_is, is_change, Paid, succeed-Paid, succeed_unchanged, callback-Paid, callback_seen,
  callback_unchanged,
}

-- Payments and outbox are as before, or a payment has succeeded.
abbrev pub Pays :
    (u : Uuids) (down : Call → Bool) (id : String) (outbox : OutboxEvent) → Db → Db → Type 0
Pays u down id outbox db db' =
    ((db'.payments ≡ db.payments) × (db'.outbox_events ≡ db.outbox_events))
    ⊎ Paid u down id outbox db db'

module _ (u : Uuids) (down : Call → Bool) (id : String) (outbox : OutboxEvent) where
  same_tables : (db db' : Db) → db' ≡ db → Pays u down id outbox db db'
  same_tables db db' e = inl (ap (λ (x : Db). x.payments) e, ap (λ (x : Db). x.outbox_events) e)

  pub succeed-Pays : (db : Db) → Pays u down id outbox db (succeed u down id outbox db).1
  succeed-Pays db = go (succeed u down id outbox db).0 refl
    where
      go :
          (r : Result PaymentError (Payment × Bool))
          → (succeed u down id outbox db).0 ≡ r
          → Pays u down id outbox db (succeed u down id outbox db).1
      go (ok (p, true)) e =
          inr (succeed-Paid u down id outbox db p (λ i. (e i, (succeed u down id outbox db).1))).0
      go (ok (p, false)) e =
          same_tables db _ (succeed_unchanged u down id outbox db (ap is_change e))
      go (err x) e = same_tables db _ (succeed_unchanged u down id outbox db (ap is_change e))

  pub callback-Pays :
      (event_id : String) (db : Db)
      → Pays u down id outbox db (succeed_callback u down id event_id outbox db).1
  callback-Pays event_id db =
      elim (Option-cases (find (callback_is event_id) db.provider_callbacks)) [
        | inl new ↦ go new (succeed_callback u down id event_id outbox db).0 refl
        | inr (seen, found) ↦
            same_tables db _ (callback_seen u down id outbox event_id db seen found)
      ]
    where
      go :
          find (callback_is event_id) db.provider_callbacks ≡ none
          → (r : Result PaymentError (Payment × Bool))
          → (succeed_callback u down id event_id outbox db).0 ≡ r
          → Pays u down id outbox db (succeed_callback u down id event_id outbox db).1
      go new (ok (p, true)) e = inr (
          callback-Paid u down id outbox event_id db p new
            (λ i. (e i, (succeed_callback u down id event_id outbox db).1)))
      go new (ok (p, false)) e =
          inl (callback_unchanged u down id outbox event_id db (ap is_change e))
      go new (err x) e = inl (callback_unchanged u down id outbox event_id db (ap is_change e))
