-- ===== src/Payment/Service/Webhook.antt =====
-- What the webhook of the provider can do.
use cross_border_logistics.Prelude.{
  ℕ, pos, String, Bool, true, false, some, ◌≡◌, ◌⊎◌, inl, inr, refl, sym, subst, arith, str_eq,
  leb_ℤ, eq_ℤ, find, Result, ok, err, Option-cases, ap, ◌∙◌, eq_ℤ_sound,
}
use cross_border_logistics.Go.{trim_space}
use cross_border_logistics.External.{Uuid, Uuids}
use cross_border_logistics.Event.{Codec}
use cross_border_logistics.Payment.Domain.{
  currency_vnd, PaymentError, Payment, OutboxEvent, PaymentRow, Db,
}
use cross_border_logistics.Payment.Repository.{
  Call, scan, find_by_provider_reference, succeed_callback,
}
use cross_border_logistics.Payment.Repository.Success.{Paid}
use cross_border_logistics.Payment.Repository.Effects.{callback-Pays}
use cross_border_logistics.Payment.Service.Success.{
  SePayWebhookInput, is_in, check_webhook, process_sepay_webhook, make_payment_succeeded_event,
}

abbrev pub has_reference : String → PaymentRow → Bool
has_reference ref r = str_eq r.provider_reference ref

module _ (u : Uuids) (c : Codec) (down : Call → Bool) (event : Uuid) (now : ℕ)
    (input : SePayWebhookInput) where
  -- What is checked of a callback before it reaches the repository.
  pub record Checked (db : Db) (p : Payment) (outbox : OutboxEvent) : Type 0 where
    pub incoming : is_in (trim_space input.transfer_type) ≡ true
    pub positive : leb_ℤ input.transfer_amount_vnd (pos 0) ≡ false
    pub row : PaymentRow
    pub found : find (has_reference (trim_space input.provider_reference)) db.payments ≡ some row
    pub is_row : p ≡ scan u down row
    pub same_amount : row.amount_vnd ≡ input.transfer_amount_vnd
    pub in_vnd : str_eq row.currency currency_vnd ≡ true
    pub event_of : make_payment_succeeded_event u c p event now ≡ ok outbox

  checked_row :
      (db : Db) (p : Payment) (event_id : String) (outbox : OutboxEvent)
      → check_webhook u c down event now input db ≡ ok (p, event_id, outbox)
      → (row : PaymentRow) × (find (has_reference (trim_space input.provider_reference)) db.payments
          ≡ some row)
  unfolding check_webhook find_by_provider_reference
  checked_row db p event_id outbox h =
      elim (Option-cases (find (has_reference (trim_space input.provider_reference)) db.payments)) [
        | inl missing ↦ absurd (ground arith)
        | inr row ↦ row
      ]

  checked_amount :
      (db : Db) (p : Payment) (event_id : String) (outbox : OutboxEvent) (row : PaymentRow)
      → check_webhook u c down event now input db ≡ ok (p, event_id, outbox)
      → find (has_reference (trim_space input.provider_reference)) db.payments ≡ some row
      → eq_ℤ row.amount_vnd input.transfer_amount_vnd ≡ true
  unfolding check_webhook find_by_provider_reference scan
  checked_amount db p event_id outbox row h found = ground arith

  check-Checked :
      (db : Db) (p : Payment) (event_id : String) (outbox : OutboxEvent)
      → check_webhook u c down event now input db ≡ ok (p, event_id, outbox)
      → Checked db p outbox
  unfolding check_webhook find_by_provider_reference scan
  check-Checked db p event_id outbox h =
      let row = checked_row db p event_id outbox h in
      record {
        incoming = ground arith;
        positive = ground arith;
        row = row.0;
        found = row.1;
        is_row = ground arith;
        same_amount = eq_ℤ_sound _ _ (checked_amount db p event_id outbox row.0 h row.1);
        in_vnd = ground arith;
        event_of = ground arith;
      }

  -- A callback that the checks or the repository refuse leaves the tables alone.
  pub refused :
      (db : Db) (e : PaymentError)
      → check_webhook u c down event now input db ≡ err e
      → (process_sepay_webhook u c down event now input db).1 ≡ db
  unfolding process_sepay_webhook
  refused db e h = ground arith

  pub passed :
      (db : Db) (p : Payment) (event_id : String) (outbox : OutboxEvent)
      → check_webhook u c down event now input db ≡ ok (p, event_id, outbox)
      → (process_sepay_webhook u c down event now input db).1
        ≡ (succeed_callback u down p.id event_id outbox db).1
  unfolding process_sepay_webhook
  passed db p event_id outbox h = ground arith

  -- A payment was found by the reference, passed the checks, and has succeeded with its event.
  pub record Settled (db db' : Db) : Type 0 where
    pub payment : Payment
    pub outbox : OutboxEvent
    pub checked : Checked db payment outbox
    pub paid : Paid u down payment.id outbox db db'

  -- Whatever the callback says and whichever calls of the database fail, it leaves payments and
  -- outbox alone, or it is an incoming transfer of exactly the amount, in VND, of the payment that
  -- has its reference, and this payment, which was pending, has succeeded with its event queued.
  pub webhook_settles :
      (db : Db)
      → (((process_sepay_webhook u c down event now input db).1.payments ≡ db.payments)
          × ((process_sepay_webhook u c down event now input db).1.outbox_events
              ≡ db.outbox_events))
        ⊎ Settled db (process_sepay_webhook u c down event now input db).1
  webhook_settles db = go (check_webhook u c down event now input db) refl
    where
      go :
          (r : Result PaymentError (Payment × String × OutboxEvent))
          → check_webhook u c down event now input db ≡ r
          → (((process_sepay_webhook u c down event now input db).1.payments ≡ db.payments)
              × ((process_sepay_webhook u c down event now input db).1.outbox_events
                  ≡ db.outbox_events))
            ⊎ Settled db (process_sepay_webhook u c down event now input db).1
      go (err e) h = inl (
        ap (λ (x : Db). x.payments) (refused db e h),
        ap (λ (x : Db). x.outbox_events) (refused db e h),
      )
      go (ok (p, event_id, outbox)) h = elim (callback-Pays u down p.id outbox event_id db) [
        | inl (payments, queue) ↦ inl (
          ap (λ (x : Db). x.payments) (passed db p event_id outbox h) ∙ payments,
          ap (λ (x : Db). x.outbox_events) (passed db p event_id outbox h) ∙ queue,
        )
        | inr paid ↦ inr (record {
          payment = p;
          outbox = outbox;
          checked = check-Checked db p event_id outbox h;
          paid = subst (Paid u down p.id outbox db) (sym (passed db p event_id outbox h)) paid;
        })
      ]
