-- ===== src/Tests/Payment.antt =====
-- The payment service on concrete inputs.
use cross_border_logistics.Prelude.{
  pos, Bool, true, false, none, some, ◌≡◌, ◌⊎◌, refl, find, any, update_where, Result, ok, err,
}
use cross_border_logistics.External.{Uuid}
use cross_border_logistics.Payment.Domain.{
  deposit, pending, Payment, PaymentError, payment_conflict, OrderPaymentSummary, OutboxEvent,
  PaymentRow, Db, empty_db, succeeded, can_transition,
}
use cross_border_logistics.Payment.Repository.{
  up, scan, create, succeed_callback, find_by_order_id_and_type,
}
use cross_border_logistics.Payment.Service.{
  Orders, create_payment, order_status_waiting_deposit, new_payment, amount_due, transaction_of,
  is_payable,
}
use cross_border_logistics.Payment.Service.Success.{SePayWebhookInput, process_sepay_webhook}
use cross_border_logistics.Payment.Service.Creation.{of_order}
use cross_border_logistics.Payment.Service.Webhook.{Settled, webhook_settles}
use cross_border_logistics.Payment.History.{Reachable, start, next, created, called_back}
use cross_border_logistics.Payment.History.Counts.{IsBooked, Reachable-IsBooked}
use cross_border_logistics.Payment.History.Redelivery.{create_again, callback_redelivered}
use cross_border_logistics.Prelude.Steps.{here, then_step}
use cross_border_logistics.Tests.World.{letters, codec}

abbrev summary : OrderPaymentSummary
summary = record {
  order_id = "o";
  deposit_amount_vnd = pos 70;
  remaining_amount_vnd = pos 30;
  status = "WAITING_DEPOSIT";
}

abbrev orders : Orders
orders id = ok summary

abbrev made : Result PaymentError Payment × Db
made =
    create_payment letters up orders none "o" deposit order_status_waiting_deposit b'p' 1 empty_db

abbrev payment : Payment
payment = record {
  id = "p";
  order_id = "o";
  type = deposit;
  amount_vnd = pos 70;
  currency = "VND";
  status = pending;
  payment_url = "https://mock-payments.local/payments/p";
  provider_reference = "mock-p";
  created_at = 1;
  updated_at = 1;
}

made_ok : made ≡ (ok payment, made.1)
unfolding create_payment find_by_order_id_and_type new_payment create any find letters amount_due
    transaction_of is_payable
made_ok = refl

abbrev paid_event : OutboxEvent
paid_event = record {
  id = "x";
  aggregate_id = "o";
  event_type = "payment.deposit_succeeded.v1";
  payload = "{}";
  created_at = 5;
}

abbrev settled_later : Db
settled_later = (succeed_callback letters up "p" "sepay-1" paid_event made.1).1

create_again_example :
    (row : PaymentRow) × (k : Uuid) × (letters.column "o" ≡ some k)
    × (find (of_order k deposit) settled_later.payments ≡ some row)
    × (create_payment letters up
          (λ id. err payment_conflict)
          none
          "o"
          deposit
          ""
          b'q'
          9
          settled_later
        ≡ (ok (scan letters up row), settled_later))
create_again_example =
    create_again letters up up orders (λ id. err payment_conflict) none none "o" deposit
      order_status_waiting_deposit "" b'p' b'q' 1 9 empty_db settled_later payment made_ok
      (then_step here (called_back up "p" "sepay-1" paid_event)) refl

abbrev called : Result PaymentError (Payment × Bool) × Db
called = succeed_callback letters up "p" "sepay-1" paid_event made.1

abbrev paid : Payment
paid = record payment { status = succeeded; updated_at = 5 }

called_ok : called ≡ (ok (paid, true), called.1)
unfolding succeed_callback create_payment find_by_order_id_and_type new_payment create any find
    letters amount_due transaction_of is_payable scan can_transition update_where
called_ok = refl

abbrev other_payment : Payment
other_payment = record payment { id = "q"; order_id = "q" }

abbrev called_later : Db
called_later = (create letters up other_payment called.1).1

callback_redelivered_example :
    ((q : Payment) × (succeed_callback letters up "p" "sepay-1" paid_event called_later
        ≡ (ok (q, false), called_later)))
    × (succeed_callback letters up "q" "sepay-1" paid_event called_later
        ≡ (err payment_conflict, called_later))
unfolding letters
callback_redelivered_example =
    callback_redelivered letters up up b'p' "sepay-1" "q" paid_event paid_event made.1 called_later
      paid true refl refl called_ok (then_step here (created up other_payment refl)) refl refl refl
      refl

pending_Reachable : Reachable letters (create letters up payment empty_db).1
pending_Reachable = next start (created up payment refl)

abbrev booked : Db
booked =
    (succeed_callback letters up "p" "sepay-1" paid_event (create letters up payment empty_db).1).1

Reachable-IsBooked_example : IsBooked booked
Reachable-IsBooked_example =
    Reachable-IsBooked letters booked
      (next pending_Reachable (called_back up "p" "sepay-1" paid_event))

abbrev webhook : SePayWebhookInput
webhook = record {
  provider_reference = " mock-p";
  event_id = "sepay-1";
  transfer_type = "IN ";
  transfer_amount_vnd = pos 70;
}

webhook_settles_example :
    (((process_sepay_webhook letters codec up b'x' 5 webhook made.1).1.payments ≡ made.1.payments)
      × ((process_sepay_webhook letters codec up b'x' 5 webhook made.1).1.outbox_events
          ≡ made.1.outbox_events))
    ⊎ Settled letters codec up b'x' 5 webhook made.1
        (process_sepay_webhook letters codec up b'x' 5 webhook made.1).1
webhook_settles_example = webhook_settles letters codec up b'x' 5 webhook made.1
