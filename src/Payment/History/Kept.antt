-- ===== src/Payment/History/Kept.antt =====
-- What every call of the payment repository keeps: payments, but for their status, and callbacks.
use cross_border_logistics.Prelude.{
  ℕ, String, Bool, true, false, ◌||◌, ◌≡◌, ◌∙◌, refl, sym, ap, subst, arith, inl, inr, none, some,
  [], ◌∷◌, any, any-append, any-update_where, find, find-append, Option-cases, Result, ok, err,
}
use cross_border_logistics.External.{Uuid, Uuids}
use cross_border_logistics.Payment.Domain.{
  PaymentError, Payment, OutboxEvent, PaymentRow, CallbackRow, Db,
}
use cross_border_logistics.Payment.Repository.{
  Call, create, succeed, succeed_callback, mark_published, mark_failed,
}
use cross_border_logistics.Payment.Repository.Stored.{create_effect, payment_row}
use cross_border_logistics.Payment.Repository.Success.{
  callback_is, paid_at, is_change, Paid, succeed-Paid, succeed_unchanged, callback_seen,
  callback-Recorded,
}
use cross_border_logistics.Payment.Repository.Effects.{succeed-Pays, callback-Pays}
use cross_border_logistics.Payment.History.{
  Step, created, marked, called_back, published, publish_failed,
}

-- A payment that passes a test, which does not look at its status, is there.
abbrev pub HasPayment : (PaymentRow → Bool) → Db → Type 0
HasPayment test db = any test db.payments ≡ true

-- The row of a callback.
abbrev pub HasCallback : String → CallbackRow → Db → Type 0
HasCallback event_id row db = find (callback_is event_id) db.provider_callbacks ≡ some row

-- The test gives the same for a payment that has succeeded.
abbrev pub IgnoresStatus : (PaymentRow → Bool) → Type 0
IgnoresStatus test = (at : ℕ) (r : PaymentRow) → test (paid_at at r) ≡ test r

module _ (u : Uuids) (down : Call → Bool) (id : Uuid) (db : Db) where
  mark_published_same :
      (at : ℕ)
      → ((mark_published u down id at db).1.payments ≡ db.payments)
        × ((mark_published u down id at db).1.provider_callbacks ≡ db.provider_callbacks)
  unfolding mark_published
  mark_published_same at = (ground arith, ground arith)

  mark_failed_same :
      (message : String)
      → ((mark_failed u down id message db).1.payments ≡ db.payments)
        × ((mark_failed u down id message db).1.provider_callbacks ≡ db.provider_callbacks)
  unfolding mark_failed
  mark_failed_same message = (ground arith, ground arith)

module _ (u : Uuids) (test : PaymentRow → Bool) (same_test : IgnoresStatus test) where
  Paid-HasPayment :
      (down : Call → Bool) (id : String) (outbox : OutboxEvent) (db db' : Db)
      → Paid u down id outbox db db'
      → HasPayment test db
      → HasPayment test db'
  Paid-HasPayment down id outbox db db' p h =
      ap (any test) p.payments_set
      ∙ any-update_where test _ (paid_at outbox.created_at) (same_test outbox.created_at)
          db.payments
      ∙ h

  pub Step-HasPayment : (db db' : Db) → Step u db db' → HasPayment test db → HasPayment test db'
  Step-HasPayment db _ (created down p waits) h = elim (create_effect u down p db) [
    | inl same ↦ subst (HasPayment test) (sym same) h
    | inr s ↦
        ap (any test) s.stored
        ∙ any-append test db.payments _
        ∙ ap (λ b. b || any test (payment_row s.id s.order p ∷ [])) h
  ]
  Step-HasPayment db _ (marked down id outbox) h = elim (succeed-Pays u down id outbox db) [
    | inl (payments, queue) ↦ ap (any test) payments ∙ h
    | inr paid ↦ Paid-HasPayment down id outbox db _ paid h
  ]
  Step-HasPayment db _ (called_back down id event_id outbox) h =
      elim (callback-Pays u down id outbox event_id db) [
        | inl (payments, queue) ↦ ap (any test) payments ∙ h
        | inr paid ↦ Paid-HasPayment down id outbox db _ paid h
      ]
  Step-HasPayment db _ (published down id at) h =
      ap (any test) (mark_published_same u down id db at).0 ∙ h
  Step-HasPayment db _ (publish_failed down id message) h =
      ap (any test) (mark_failed_same u down id db message).0 ∙ h

module _ (u : Uuids) (event_id : String) (row : CallbackRow) where
  abbrev Held : Db → Type 0
  Held = HasCallback event_id row

  same_callbacks :
      (db db' : Db) → db'.provider_callbacks ≡ db.provider_callbacks → Held db → Held db'
  same_callbacks db db' e h = ap (find (callback_is event_id)) e ∙ h

  module _ (down : Call → Bool) (id : String) (outbox : OutboxEvent) (db : Db) (h : Held db) where
    callback_failed :
        (other : String) (x : PaymentError)
        → (succeed_callback u down id other outbox db).0 ≡ err x
        → (succeed_callback u down id other outbox db).1 ≡ db
    unfolding succeed_callback
    callback_failed other x e = ground arith

    callback-HasCallback : (other : String) → Held (succeed_callback u down id other outbox db).1
    callback-HasCallback other =
        elim (Option-cases (find (callback_is other) db.provider_callbacks)) [
          | inr (seen, found) ↦
              subst Held (sym (callback_seen u down id outbox other db seen found)) h
          | inl new ↦ go new (succeed_callback u down id other outbox db).0 refl
        ]
      where
        go :
            find (callback_is other) db.provider_callbacks ≡ none
            → (r : Result PaymentError (Payment × Bool))
            → (succeed_callback u down id other outbox db).0 ≡ r
            → Held (succeed_callback u down id other outbox db).1
        go new (err x) e = subst Held (sym (callback_failed other x e)) h
        go new (ok (p, changed)) e =
            ap (find (callback_is event_id))
              (callback-Recorded u down id outbox other db p changed new
                (λ i. (e i, (succeed_callback u down id other outbox db).1))).recorded
            ∙ find-append (callback_is event_id) db.provider_callbacks _ row h

    succeed-HasCallback : Held (succeed u down id outbox db).1
    succeed-HasCallback = go (succeed u down id outbox db).0 refl
      where
        go :
            (r : Result PaymentError (Payment × Bool))
            → (succeed u down id outbox db).0 ≡ r
            → Held (succeed u down id outbox db).1
        go (ok (p, true)) e =
            same_callbacks db (succeed u down id outbox db).1
              (succeed-Paid u down id outbox db p (λ i. (e i, (succeed u down id outbox db).1))).1 h
        go (ok (p, false)) e =
            subst Held (sym (succeed_unchanged u down id outbox db (ap is_change e))) h
        go (err x) e = subst Held (sym (succeed_unchanged u down id outbox db (ap is_change e))) h

  pub Step-HasCallback : (db db' : Db) → Step u db db' → Held db → Held db'
  Step-HasCallback db _ (created down p waits) h = elim (create_effect u down p db) [
    | inl same ↦ subst Held (sym same) h
    | inr s ↦ same_callbacks db (create u down p db).1 s.callbacks_kept h
  ]
  Step-HasCallback db _ (marked down id outbox) h = succeed-HasCallback down id outbox db h
  Step-HasCallback db _ (called_back down id other outbox) h =
      callback-HasCallback down id outbox db h other
  Step-HasCallback db _ (published down id at) h =
      same_callbacks db (mark_published u down id at db).1 (mark_published_same u down id db at).1 h
  Step-HasCallback db _ (publish_failed down id message) h =
      same_callbacks db (mark_failed u down id message db).1
        (mark_failed_same u down id db message).1 h
