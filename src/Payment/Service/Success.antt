-- ===== src/Payment/Service/Success.antt =====
-- backend/internal/payment/application/service.go.
-- The webhook of the provider, the queries, and the end of a payment.
use Prim.Native.Char.{code}
use cross_border_logistics.Prelude.{
  ℕ, ℤ, pos, String, Bool, false, not, ◌&&◌, ◌||◌, Option, none, some, str_eq, ◌==◌, if◌then◌else◌,
  leb_ℤ, eq_ℤ, Result, ok, err, or_error,
}
use cross_border_logistics.Prelude.Checks.{◌>>=◌, ◌>>◌, fail_if}
use cross_border_logistics.Go.{trim_space}
use cross_border_logistics.External.{Uuid, Uuids}
use cross_border_logistics.Event.{
  payment_deposit_succeeded, payment_remaining_balance_succeeded, Codec,
}
use cross_border_logistics.Payment.Domain.{
  PaymentType, deposit, remaining_balance, refund, succeeded, currency_vnd, PaymentError,
  invalid_input, invalid_state, checkout_unavailable, internal, Payment, is_pending, is_succeeded,
  can_transition, CheckoutForm, Gateway, OutboxEvent, Db,
}
use cross_border_logistics.Payment.Repository.{
  Call, find_by_id, find_by_provider_reference, succeed, succeed_callback,
}

pub record SePayWebhookInput : Type 0 where
  pub provider_reference : String
  pub event_id : String
  pub transfer_type : String
  pub transfer_amount_vnd : ℤ

is_n : String → Bool
is_n String.[] = false
is_n (String.◌∷◌ c s) = (code c == b'n' || code c == b'N') && str_eq s ""

-- `strings.ToLower(s) == "in"`: the code points that are lowered to an i are i, I and U+0130.
unfoldable pub is_in : String → Bool
unfolding is_n
is_in String.[] = false
is_in (String.◌∷◌ c s) = (code c == b'i' || code c == b'I' || code c == 0x130) && is_n s

-- The event type of a payment that can succeed.
unfoldable pub success_event_type : PaymentType → Result PaymentError String
success_event_type deposit = ok payment_deposit_succeeded
success_event_type remaining_balance = ok payment_remaining_balance_succeeded
success_event_type refund = err invalid_state

checkout_of : Option Gateway → Payment → Result PaymentError CheckoutForm
checkout_of none payment = err checkout_unavailable
checkout_of (some gateway) payment = elim gateway.build_checkout [
  | none ↦ err checkout_unavailable
  | some build ↦ or_error (build payment) checkout_unavailable
]

module _ (u : Uuids) (c : Codec) where
  -- `makePaymentSucceededEvent`
  unfoldable pub make_payment_succeeded_event : Payment → Uuid → ℕ → Result PaymentError OutboxEvent
  make_payment_succeeded_event p event now = do
    event_type ← success_event_type p.type
    raw ←
        or_error
          (c.marshal_payment (record {
            payment_id = p.id;
            order_id = p.order_id;
            amount_vnd = p.amount_vnd;
            currency = p.currency;
          }))
          internal
    payload ←
        or_error
          (c.marshal_text_envelope (record {
            event_id = u.format event;
            event_type = event_type;
            aggregate_id = p.order_id;
            producer = "payment-service";
            occurred_at = now;
            payload = raw;
          }))
          internal
    ok (record {
      id = u.format event;
      aggregate_id = p.order_id;
      event_type = event_type;
      payload = payload;
      created_at = now;
    })

  -- The payment of an answer of the repository.
  answer : Result PaymentError (Payment × Bool) × Db → Result PaymentError Payment × Db
  answer (ok (p, changed), db) = (ok p, db)
  answer (err e, db) = (err e, db)

  -- The checks of `ProcessSePayWebhook`: the payment, the callback's id and the event to store.
  unfoldable pub check_webhook :
      (Call → Bool)
      → Uuid
      → ℕ
      → SePayWebhookInput
      → Db
      → Result PaymentError (Payment × String × OutboxEvent)
  check_webhook down event now input db = do
    let reference = trim_space input.provider_reference
    let event_id = trim_space input.event_id
    fail_if
        (str_eq reference ""
          || str_eq event_id ""
          || not (is_in (trim_space input.transfer_type))
          || leb_ℤ input.transfer_amount_vnd (pos 0))
        invalid_input
    payment ← find_by_provider_reference u down reference db
    fail_if
        (not (eq_ℤ payment.amount_vnd input.transfer_amount_vnd)
          || not (str_eq payment.currency currency_vnd))
        invalid_input
    outbox ← make_payment_succeeded_event payment event now
    ok (payment, event_id, outbox)

  deliver :
      (Call → Bool)
      → Result PaymentError (Payment × String × OutboxEvent)
      → Db
      → Result PaymentError Payment × Db
  unfolding answer
  deliver down (err e) db = (err e, db)
  deliver down (ok (p, event_id, outbox)) db =
      answer (succeed_callback u down p.id event_id outbox db)

  -- `ProcessSePayWebhook`
  unfoldable pub process_sepay_webhook :
      (Call → Bool) → Uuid → ℕ → SePayWebhookInput → Db → Result PaymentError Payment × Db
  unfolding deliver
  process_sepay_webhook down event now input db =
      deliver down (check_webhook down event now input db) db

  -- `Get`: the id is checked without its spaces, and looked up with them.
  unfoldable pub get : (Call → Bool) → String → Db → Result PaymentError Payment
  get down id db = do
    parsed ← or_error (u.parse (trim_space id)) invalid_input
    find_by_id u down id db

  -- `BuildCheckout`
  unfoldable pub build_checkout :
      (Call → Bool) → Option Gateway → String → Db → Result PaymentError CheckoutForm
  unfolding get checkout_of
  build_checkout down gateway id db = do
    payment ← get down id db
    fail_if (not (is_pending payment.status)) invalid_state
    checkout_of gateway payment

  mark_found :
      (Call → Bool)
      → String
      → Uuid
      → ℕ
      → Result PaymentError Payment
      → Db
      → Result PaymentError Payment × Db
  unfolding answer
  mark_found down id event now (err e) db = (err e, db)
  mark_found down id event now (ok p) db =
      if is_succeeded p.status
      then (ok p, db)
      else if not (can_transition p.status succeeded)
      then (err invalid_state, db)
      else elim (make_payment_succeeded_event p event now) [
        | err e ↦ (err e, db)
        | ok outbox ↦ answer (succeed u down id outbox db)
      ]

  -- `MarkSucceeded`, whose lookup is that of `Get`
  unfoldable pub mark_succeeded :
      (Call → Bool) → String → Uuid → ℕ → Db → Result PaymentError Payment × Db
  unfolding mark_found get
  mark_succeeded down id event now db = mark_found down id event now (get down id db) db
