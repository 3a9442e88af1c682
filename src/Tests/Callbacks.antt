-- ===== src/Tests/Callbacks.antt =====
-- The HTTP handler of the payment service on concrete inputs.
use Prim.Native.String.{◌++◌ as append}
use cross_border_logistics.Prelude.{
  pos, String, none, some, [], ◌∷◌, ◌≡◌, refl, arith, str_eq, find, any, update_where,
  if◌then◌else◌, err, length,
}
use cross_border_logistics.Go.{trim_space}
use cross_border_logistics.Go.Numbers.{parse_int, format_int}
use cross_border_logistics.Http.{acknowledged}
use cross_border_logistics.Payment.Domain.{
  order_not_found, can_transition, PaymentRow, deposit, pending, Db, empty_db,
}
use cross_border_logistics.Payment.Repository.{up, find_by_provider_reference, succeed_callback}
use cross_border_logistics.Payment.Service.Success.{
  process_sepay_webhook, check_webhook, make_payment_succeeded_event, success_event_type, is_in,
}
use cross_border_logistics.Payment.Http.{Service, Handler, new_handler}
use cross_border_logistics.Payment.Http.Callbacks.{
  WebhookRequest, IpnRequest, Wire, Webhook, Ipn, is_stale, webhook_input, parse_sepay_pg_amount,
  sepay_webhook, sepay_pg_ipn, all_zeros,
}
use cross_border_logistics.Payment.Http.Callbacks.Authentic.{
  IsSigned, IsPaidNotice, Processes, webhook_authentic, ipn_authentic,
}
use cross_border_logistics.Payment.Http.Callbacks.Amounts.{parse_sepay_pg_amount-format_int}
use cross_border_logistics.Payment.Http.Routes.{send_webhook, serve}
use cross_border_logistics.Payment.Http.Security.{payment_service, Pays, success_needs_proof}
use cross_border_logistics.Tests.World.{letters, codec}

abbrev callback : WebhookRequest
callback = record {
  id = pos 5;
  account_number = "";
  code = some "mock-p";
  transfer_type = "in";
  transfer_amount = pos 70;
}

abbrev notice : IpnRequest
notice = record {
  notification_type = "ORDER_PAID";
  order = record {
    id = "1";
    status = "CAPTURED";
    currency = "VND";
    amount = "70.00";
    invoice_number = "mock-p";
  };
  transaction = record { id = "t"; status = "APPROVED"; amount = "70"; currency = "VND" };
}

-- The signature of a text is the secret before it.
abbrev wire : Wire
wire = record {
  webhook = λ s. if str_eq s "body" then some callback else none;
  ipn = λ s. if str_eq s "body" then some notice else none;
  text = λ s. some s;
  mac = λ secret s. append secret s;
  render = λ form. some "page";
}

to_lower : String → String
to_lower s = s

abbrev handler : Handler
handler = new_handler to_lower ("key" ∷ "production" ∷ "" ∷ "sepay" ∷ "gateway key" ∷ [])

abbrev signed : Webhook
signed = record { body = some "body"; timestamp = "100"; signature = "sha256=key100.body" }

abbrev row : PaymentRow
row = record {
  id = b'p';
  order_id = b'o';
  type = deposit;
  amount_vnd = pos 70;
  currency = "VND";
  status = pending;
  payment_url = "";
  provider_reference = "mock-p";
  created_at = 1;
  updated_at = 1;
}

abbrev waiting : Db
waiting = record empty_db { payments = row ∷ [] }

abbrev service : Service Db
service = payment_service letters codec up (λ id. err order_not_found) none b'e' 5

webhook_authentic_example :
    Processes service
      (IsSigned wire handler 100000000000 signed)
      waiting
      (sepay_webhook service wire handler 100000000000 signed waiting).1
webhook_authentic_example = webhook_authentic service wire handler 100000000000 signed waiting

abbrev told : Ipn
told = record { body = some "body"; secret_key = " gateway key" }

ipn_authentic_example :
    Processes service
      (IsPaidNotice wire handler told)
      waiting
      (sepay_pg_ipn service wire handler told waiting).1
ipn_authentic_example = ipn_authentic service wire handler told waiting

parse_sepay_pg_amount-format_int_example :
    parse_sepay_pg_amount wire (append (format_int (pos 70)) (append "." "00")) ≡ some (pos 70)
unfolding all_zeros
parse_sepay_pg_amount-format_int_example =
    parse_sepay_pg_amount-format_int wire 70 "00" (omega arith) (omega arith) refl

success_needs_proof_example :
    Pays letters codec up
      (λ id. err order_not_found)
      none
      b'e'
      5
      wire
      handler
      100000000000
      (send_webhook signed)
      waiting
      (serve service wire handler 100000000000 (send_webhook signed) waiting).1
success_needs_proof_example =
    success_needs_proof letters codec up (λ id. err order_not_found) none b'e' 5 to_lower "key"
      "production" ("" ∷ "sepay" ∷ "gateway key" ∷ []) wire 100000000000 (send_webhook signed)
      waiting refl

-- The callback is accepted, and queues the event of its payment.
accepted_run : (sepay_webhook service wire handler 100000000000 signed waiting).0 ≡ acknowledged
unfolding new_handler sepay_webhook webhook_input payment_service parse_int is_stale trim_space
    process_sepay_webhook check_webhook find_by_provider_reference succeed_callback any find letters
    codec update_where make_payment_succeeded_event success_event_type is_in can_transition
    format_int
accepted_run = refl

queued_run :
    length (sepay_webhook service wire handler 100000000000 signed waiting).1.outbox_events ≡ 1
unfolding new_handler sepay_webhook webhook_input payment_service parse_int is_stale trim_space
    process_sepay_webhook check_webhook find_by_provider_reference succeed_callback any find letters
    codec update_where make_payment_succeeded_event success_event_type is_in can_transition
    format_int
queued_run = refl
