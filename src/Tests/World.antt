-- ===== src/Tests/World.antt =====
-- Concrete stand-ins for the external code: a UUID is the code of a letter, and its text the letter.
use Prim.Native.Char.{code}
use cross_border_logistics.Prelude.{pos, String, Option, none, some, ◌==◌, str_eq, if◌then◌else◌}
use cross_border_logistics.External.{Uuid, Uuids}
use cross_border_logistics.Event.{
  payment_deposit_succeeded, payment_remaining_balance_succeeded, package_received,
  order_status_changed, Envelope, PaymentSucceededData, Codec,
}

letter : String → Option Uuid
letter String.[] = none
letter (String.◌∷◌ c s) = some (code c)

text_of : Uuid → String
text_of k =
    if k == b'o'
    then "o"
    else if k == b'q'
    then "q"
    else if k == b'p'
    then "p"
    else if k == b'e'
    then "e"
    else if k == b't'
    then "t"
    else "x"

unfoldable pub letters : Uuids
unfolding letter text_of
letters = record { parse = letter; format = text_of; column = letter; name_based = λ s. b'o' }

abbrev pub deposit_data : PaymentSucceededData
deposit_data = record { payment_id = b'p'; order_id = b'o'; amount_vnd = pos 70; currency = "VND" }

abbrev pub deposit_envelope : Envelope
deposit_envelope = record {
  event_id = b'e';
  event_type = payment_deposit_succeeded;
  aggregate_id = b'o';
  producer = "payment-service";
  occurred_at = 3;
  payload = "deposit";
}

-- An event for the remaining balance.
abbrev pub remaining_envelope : Envelope
remaining_envelope = record deposit_envelope {
  event_id = b't';
  event_type = payment_remaining_balance_succeeded;
}

-- A deposit event with unreadable data.
abbrev pub poison_envelope : Envelope
poison_envelope = record deposit_envelope { payload = "poison" }

abbrev pub poison_package : Envelope
poison_package = record deposit_envelope {
  event_type = package_received;
  producer = "warehouse-service";
  payload = "poison";
}

abbrev pub status_envelope : Envelope
status_envelope = record deposit_envelope { event_type = order_status_changed; payload = "shipped" }

unmarshal_envelope : String → Option Envelope
unmarshal_envelope s =
    if str_eq s "deposit event"
    then some deposit_envelope
    else if str_eq s "poison event"
    then some poison_envelope
    else if str_eq s "poison package"
    then some poison_package
    else if str_eq s "status event"
    then some status_envelope
    else none

unfoldable pub codec : Codec
unfolding unmarshal_envelope
codec = record {
  marshal_envelope = λ e. some "envelope";
  unmarshal_envelope = unmarshal_envelope;
  marshal_text_envelope = λ e. some "envelope";
  marshal_status_changed = λ d. some "status";
  marshal_order_created = λ d. some "created";
  marshal_payment = λ d. some "deposit";
  unmarshal_payment = λ s. if str_eq s "deposit" then some deposit_data else none;
  marshal_package = λ d. some "package";
  unmarshal_package = λ s. none;
}
