-- ===== src/Tests/Order.antt =====
-- The order service on concrete inputs.
use cross_border_logistics.Prelude.{
  ◌<◌, pos, Bool, true, false, some, [], ◌∷◌, ◌≡◌, inl, refl, arith, str_eq, Result, ok, any, find,
  update_where, add64,
}
use cross_border_logistics.Order.Domain.{
  waiting_deposit, waiting_purchase, purchased, OrderError, ordinal, wire, status_eq,
  can_transition, TrackingEvent,
}
use cross_border_logistics.Order.Domain.Transitions.{status_eq-wire, can_transition_forward}
use cross_border_logistics.Order.Ports.{QuotationSnapshot, OutboxEvent, OrderRow, Db, empty_db}
use cross_border_logistics.Order.Repository.{up, process_status_event}
use cross_border_logistics.Order.Repository.Events.{
  Applied, process-Applied, process-outcome, outcome,
}
use cross_border_logistics.Order.Service.{CreateInput, Quotations, Fresh, new_order, create_order}
use cross_border_logistics.Order.Service.Money.{new_order_splits}
use cross_border_logistics.Order.Service.Handlers.{
  EventIds, handle_payment_remaining_balance_succeeded,
}
use cross_border_logistics.Order.Consumer.{Round, process_until_success, process_package, run}
use cross_border_logistics.Order.Consumer.Retry.{
  poison_payment, poison_blocks, poison_package_skipped,
}
use cross_border_logistics.Order.History.{Reachable, start, next, created, remaining_event}
use cross_border_logistics.Order.History.Statuses.{
  AllEarly, Reachable-AllEarly, remaining_never_applied,
}
use cross_border_logistics.Prelude.Steps.{here, then_step}
use cross_border_logistics.Order.History.Redelivery.{process_redelivered}
use cross_border_logistics.Order.History.Audit.{IsAudited, Reachable-IsAudited}
use cross_border_logistics.Tests.World.{
  letters, codec, remaining_envelope, poison_envelope, poison_package,
}

status_eq-wire_example :
    status_eq waiting_deposit purchased ≡ str_eq (wire waiting_deposit) (wire purchased)
status_eq-wire_example = status_eq-wire waiting_deposit purchased

can_transition_forward_example : ordinal waiting_purchase < ordinal purchased
unfolding can_transition
can_transition_forward_example = can_transition_forward waiting_purchase purchased refl

abbrev waiting_row : OrderRow
waiting_row = record {
  id = b'o';
  customer_id = "customer";
  quotation_id = b'q';
  delivery_address = "address";
  total_amount_vnd = pos 100;
  deposit_amount_vnd = pos 70;
  remaining_amount_vnd = pos 30;
  status = waiting_deposit;
  created_at = 1;
  updated_at = 1;
}

abbrev pub waiting_db : Db
waiting_db = record empty_db { orders = waiting_row ∷ [] }

abbrev tracking : TrackingEvent
tracking = record {
  id = "t";
  order_id = "o";
  status = waiting_purchase;
  description = "paid";
  source = "payment-service";
  occurred_at = 5;
  created_at = 5;
}

abbrev outbox : OutboxEvent
outbox = record {
  id = "x";
  aggregate_id = "o";
  event_type = "order.status_changed.v1";
  payload = "{}";
  created_at = 5;
}

abbrev paid : Result OrderError Bool × Db
paid =
    process_status_event letters up "e" "deposit" "o" 5 tracking outbox waiting_purchase (pos 70)
      waiting_db

paid_ok : paid ≡ (ok true, paid.1)
unfolding process_status_event letters any find update_where can_transition
paid_ok = refl

process-Applied_example :
    Applied letters up "e" "deposit" "o" 5 tracking outbox waiting_purchase
      (pos 70)
      waiting_db
      paid.1
process-Applied_example =
    process-Applied letters up "e" "deposit" "o" 5 tracking outbox waiting_purchase (pos 70)
      waiting_db paid_ok

-- A remaining balance that comes after the deposit, at the tables in between.
abbrev afterwards : Db
afterwards =
    (handle_payment_remaining_balance_succeeded letters codec up
      (record { status_event = b'x'; tracking = b't' }) 7 remaining_envelope paid.1).1

process_redelivered_example :
    process_status_event letters up "e" "other" "q" 9 tracking outbox purchased (pos 1) afterwards
    ≡ (ok false, afterwards)
process_redelivered_example =
    process_redelivered letters codec up up "e" "deposit" "other" "o" "q" 5 9 tracking tracking
      outbox outbox waiting_purchase purchased (pos 70) (pos 1) waiting_db afterwards paid_ok
      (then_step here
        (remaining_event up (record { status_event = b'x'; tracking = b't' }) 7 remaining_envelope))
      refl refl refl

process-outcome_example :
    (process_status_event letters up "e" "deposit" "o" 5 tracking outbox waiting_purchase
      (pos 71)
      waiting_db).0
    ≡ outcome waiting_purchase (pos 71) (some waiting_row)
unfolding letters any find
process-outcome_example =
    process-outcome letters "e" "deposit" "o" 5 tracking outbox waiting_purchase (pos 71) waiting_db
      b'e' b'o' b't' b'x' refl refl refl refl refl refl refl refl refl

abbrev pub quotation : QuotationSnapshot
quotation = record {
  quotation_id = "q";
  customer_id = "customer";
  product_url = "https://shop/p";
  product_name = "product";
  quantity = pos 2;
  total_amount_vnd = pos 1999;
  status = "PENDING_CONFIRMATION";
  created_at = 1;
}

new_order_splits_example :
    let o = new_order letters codec "o" "customer" "address" quotation b'i' 1 in
    (o.deposit_amount_vnd ≡ pos 1399)
    × (o.remaining_amount_vnd ≡ pos 600)
    × (add64 o.deposit_amount_vnd o.remaining_amount_vnd ≡ o.total_amount_vnd)
new_order_splits_example =
    new_order_splits letters codec "o" "customer" "address" quotation b'i' 1 1999 refl (omega arith)

abbrev pub quotations : Quotations
quotations = record {
  get_quotation = λ id. ok quotation;
  confirm_quotation = some (λ id order. ok quotation);
}

abbrev pub input : CreateInput
input = record { quotation_id = " q "; customer_id = ""; delivery_address = "address" }

abbrev fresh : Fresh
fresh = record { item = b'i'; tracking = b't'; event = b'e' }

abbrev created_db : Db
created_db = (create_order letters codec quotations up fresh 1 input empty_db).1

created-Reachable : Reachable letters codec created_db
created-Reachable = next start (created quotations up fresh 1 input)

Reachable-AllEarly_example : AllEarly created_db
Reachable-AllEarly_example = Reachable-AllEarly letters codec created_db created-Reachable

Reachable-IsAudited_example : IsAudited created_db
Reachable-IsAudited_example = Reachable-IsAudited letters codec created_db created-Reachable

abbrev ids : EventIds
ids = record { status_event = b'x'; tracking = b't' }

remaining_never_applied_example :
    (handle_payment_remaining_balance_succeeded letters codec up ids 2 remaining_envelope
      created_db).1
    ≡ created_db
remaining_never_applied_example =
    remaining_never_applied letters codec created_db up ids 2 remaining_envelope created-Reachable

abbrev round : Round
round = record { down = up; ids = ids; now = 7 }

poison_payment_example :
    process_until_success letters codec "poison event" (round ∷ round ∷ []) waiting_db
    ≡ (false, waiting_db)
unfolding codec
poison_payment_example =
    poison_payment letters codec "poison event" poison_envelope (round ∷ round ∷ []) waiting_db refl
      refl (inl refl)

poison_blocks_example :
    run
      (process_until_success letters codec)
      (("poison event", round ∷ []) ∷ ("deposit event", round ∷ []) ∷ [])
      waiting_db
    ≡ ([], waiting_db)
unfolding codec
poison_blocks_example =
    poison_blocks letters codec "poison event" poison_envelope (round ∷ [])
      (("deposit event", round ∷ []) ∷ []) waiting_db refl refl (inl refl)

poison_package_skipped_example :
    process_package letters codec "poison package" (round ∷ []) waiting_db ≡ (true, waiting_db)
unfolding codec
poison_package_skipped_example =
    poison_package_skipped letters codec "poison package" poison_package round [] waiting_db refl
      (inl refl)
