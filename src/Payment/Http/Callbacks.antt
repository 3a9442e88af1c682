-- ===== src/Payment/Http/Callbacks.antt =====
-- backend/internal/payment/adapters/http/handler.go: the callbacks of the payment provider.
pub mod Authentic
pub mod Amounts
use Prim.Native.String.{◌++◌ as append}
use Prim.Native.Char.{code}
use cross_border_logistics.Prelude.{
  ℕ, suc, ◌+◌, ◌-◌, ◌*◌, ℤ, pos, negsuc, String, Bool, true, false, not, ◌&&◌, ◌||◌, Option, none,
  some, str_eq, ltb, ◌==◌, leb_ℤ, eq_ℤ, if◌then◌else◌, Result, ok, err, or_error,
}
use cross_border_logistics.Prelude.Checks.{◌>>=◌, ◌>>◌, fail_if}
use cross_border_logistics.Go.{is_empty, trim_space}
use cross_border_logistics.Go.Numbers.{parse_int, before_dot, after_dot, format_int}
use cross_border_logistics.Http.{Response, acknowledged, failure, validation_error}
use cross_border_logistics.Payment.Domain.{PaymentError, Payment, CheckoutForm}
use cross_border_logistics.Payment.Service.Success.{SePayWebhookInput}
use cross_border_logistics.Payment.Http.{Service, Handler, Shown, write_error}

-- The body of `sePayWebhook`
pub record WebhookRequest : Type 0 where
  pub id : ℤ
  pub account_number : String
  pub code : Option String
  pub transfer_type : String
  pub transfer_amount : ℤ

pub record IpnOrder : Type 0 where
  pub id : String
  pub status : String
  pub currency : String
  pub amount : String
  pub invoice_number : String

pub record IpnTransaction : Type 0 where
  pub id : String
  pub status : String
  pub amount : String
  pub currency : String

-- `sePayPGIPNRequest`
pub record IpnRequest : Type 0 where
  pub notification_type : String
  pub order : IpnOrder
  pub transaction : IpnTransaction

-- What the handler calls that is not of this repository.
pub record Wire : Type 0 where
  -- `json.Unmarshal` into each type; `none` is an error
  pub webhook : String → Option WebhookRequest
  pub ipn : String → Option IpnRequest
  pub text : String → Option String
  -- HMAC-SHA256 of a message under a secret, in hexadecimal
  pub mac : String → String → String
  -- `checkoutPage.Execute`
  pub render : CheckoutForm → Option String

-- What is read of a request: the body up to a mebibyte, or `none` where that fails, and headers.
pub record Webhook : Type 0 where
  pub body : Option String
  pub timestamp : String
  pub signature : String

pub record Ipn : Type 0 where
  pub body : Option String
  pub secret_key : String

-- Five minutes, in nanoseconds.
abbrev pub tolerance : ℕ
tolerance = 300000000000

-- `time.Since` or `time.Until` of a Unix time is more than five minutes; `now` is in nanoseconds of
-- Unix time. A difference that does not fit a Duration is cut to one that is on the same side.
unfoldable pub is_stale : ℕ → ℤ → Bool
is_stale now (pos t) = ltb tolerance (now - t * 1000000000) || ltb tolerance (t * 1000000000 - now)
is_stale now (negsuc t) = ltb tolerance (now + suc t * 1000000000)

abbrev pub invalid_signature : Response Shown
invalid_signature = failure 401 "INVALID_WEBHOOK_SIGNATURE" "webhook signature is invalid or stale"

abbrev pub invalid_body : Response Shown
invalid_body = failure 400 validation_error "invalid callback body"

-- The signature that is expected of a body at a time.
abbrev pub expected_signature : Wire → Handler → String → String → String
expected_signature w h timestamp body =
    append "sha256=" (w.mac h.webhook_secret (append timestamp (append "." body)))

abbrev pub is_for_account : Handler → String → Bool
is_for_account h account = is_empty h.account_number || str_eq h.account_number (trim_space account)

-- The checks of `sePayWebhook`: the input of the service, or the answer.
unfoldable pub webhook_input :
    Wire → Handler → ℕ → Webhook → Result (Response Shown) SePayWebhookInput
webhook_input w h now request = do
  body ← or_error request.body invalid_body
  let timestamp = trim_space request.timestamp
  seconds ← or_error (parse_int timestamp) invalid_signature
  fail_if (is_stale now seconds) invalid_signature
  fail_if (not (str_eq (expected_signature w h timestamp body) (trim_space request.signature)))
      invalid_signature
  callback ← or_error (w.webhook body) invalid_body
  fail_if (leb_ℤ callback.id (pos 0)) invalid_body
  reference ← or_error callback.code invalid_body
  fail_if (is_empty (trim_space reference) || not (is_for_account h callback.account_number))
      invalid_body
  ok (record {
    provider_reference = reference;
    event_id = append "sepay:" (format_int callback.id);
    transfer_type = callback.transfer_type;
    transfer_amount_vnd = callback.transfer_amount;
  })

is_quote : ℕ → Bool
is_quote k = k == 34

ends_in_quote : String → Bool
unfolding is_quote
ends_in_quote String.[] = false
ends_in_quote (String.◌∷◌ c s) =
    let rest = ends_in_quote s in if is_empty s then is_quote (code c) else rest

-- A text of at least two bytes, in quotation marks
unfoldable pub is_quoted : String → Bool
unfolding ends_in_quote is_quote
is_quoted String.[] = false
is_quoted (String.◌∷◌ c s) = is_quote (code c) && ends_in_quote s

-- `strings.Trim(s, "0") == ""`
unfoldable pub all_zeros : String → Bool
all_zeros String.[] = true
all_zeros (String.◌∷◌ c s) = code c == b'0' && all_zeros s

-- There is at most one dot, and nothing but zeros behind it.
unfoldable pub no_fraction : Option String → Bool
no_fraction none = true
no_fraction (some s) = elim (after_dot s) [ none ↦ all_zeros s | some t ↦ false ]

-- An amount without its quotation marks.
unfoldable pub whole_amount : String → Option ℤ
whole_amount value =
    if not (no_fraction (after_dot value)) || is_empty (before_dot value)
    then none
    else elim (parse_int (before_dot value)) [
      | none ↦ none
      | some n ↦ if leb_ℤ n (pos 0) then none else some n
    ]

-- `parseSePayPGAmount`; `none` is an error
unfoldable pub parse_sepay_pg_amount : Wire → String → Option ℤ
unfolding is_quoted whole_amount
parse_sepay_pg_amount w raw =
    if is_quoted (trim_space raw)
    then elim (w.text raw) [ none ↦ none | some value ↦ whole_amount value ]
    else whole_amount (trim_space raw)

abbrev pub invalid_ipn_secret : Response Shown
invalid_ipn_secret = failure 401 "INVALID_IPN_SECRET" "IPN authentication failed"

abbrev pub invalid_ipn : Response Shown
invalid_ipn = failure 400 validation_error "invalid IPN body"

abbrev pub invalid_paid : Response Shown
invalid_paid = failure 400 validation_error "invalid paid order IPN"

abbrev pub amounts_differ : Response Shown
amounts_differ = failure 400 validation_error "IPN transaction amount does not match order"

-- The fields of a notification of a paid order, but for the amounts.
abbrev pub is_paid_order : IpnRequest → Bool
is_paid_order r =
    not (is_empty r.order.invoice_number)
    && str_eq r.order.currency "VND"
    && str_eq r.order.status "CAPTURED"
    && not (is_empty r.transaction.id)
    && str_eq r.transaction.status "APPROVED"
    && str_eq r.transaction.currency "VND"

-- The checks of `sePayPGIPN`: the input of the service, or the answer.
unfoldable pub ipn_input : Wire → Handler → Ipn → Result (Response Shown) SePayWebhookInput
ipn_input w h request = do
  fail_if (is_empty h.pg_ipn_secret || not (str_eq h.pg_ipn_secret (trim_space request.secret_key)))
      invalid_ipn_secret
  body ← or_error request.body invalid_ipn
  ipn ← or_error (w.ipn body) invalid_ipn
  fail_if (not (str_eq ipn.notification_type "ORDER_PAID")) acknowledged
  amount ← or_error (parse_sepay_pg_amount w ipn.order.amount) invalid_paid
  fail_if (not (is_paid_order ipn)) invalid_paid
  paid ← or_error (parse_sepay_pg_amount w ipn.transaction.amount) amounts_differ
  fail_if (not (eq_ℤ paid amount)) amounts_differ
  ok (record {
    provider_reference = ipn.order.invoice_number;
    event_id = append "sepay-pg:" ipn.transaction.id;
    transfer_type = "in";
    transfer_amount_vnd = amount;
  })

pub acknowledge : {S : Type 0} → Result PaymentError Payment × S → Response Shown × S
acknowledge (ok p, s) = (acknowledged, s)
acknowledge (err e, s) = (write_error e, s)

module _ {S : Type 0} (service : Service S) where
  -- The end of both handlers: an early answer, or the call of the service.
  unfoldable pub process_callback :
      Result (Response Shown) SePayWebhookInput → S → Response Shown × S
  unfolding acknowledge
  process_callback (err early) s = (early, s)
  process_callback (ok input) s = elim service.process_sepay_webhook [
    | none ↦ (failure 503 "CALLBACK_UNAVAILABLE" "callback processing is unavailable", s)
    | some process ↦ acknowledge (process input s)
  ]

  -- `sePayWebhook`
  unfoldable pub sepay_webhook : Wire → Handler → ℕ → Webhook → S → Response Shown × S
  unfolding process_callback
  sepay_webhook w h now request s = process_callback (webhook_input w h now request) s

  -- `sePayPGIPN`
  unfoldable pub sepay_pg_ipn : Wire → Handler → Ipn → S → Response Shown × S
  unfolding process_callback
  sepay_pg_ipn w h request s = process_callback (ipn_input w h request) s
