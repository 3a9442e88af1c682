-- ===== src/Payment/Service.antt =====
-- backend/internal/payment/application/service.go.
-- The order service and the gateway are ports; `time.Now` and the random UUIDs are arguments. The
-- repository is the one of Payment.Repository, which has the optional interfaces too.
pub mod Success
pub mod Webhook
pub mod Creation
use Prim.Native.String.{◌++◌ as append}
use Prim.Native.Char.{code}
use cross_border_logistics.Prelude.{
  ℕ, ℤ, pos, String, Bool, true, false, not, ◌&&◌, ◌||◌, Option, none, some, str_eq, ◌==◌,
  if◌then◌else◌, leb_ℤ, eq_ℤ, Result, ok, err, or_error,
}
use cross_border_logistics.Prelude.Checks.{◌>>=◌, ◌>>◌, fail_if}
use cross_border_logistics.Go.{trim_space}
use cross_border_logistics.External.{Uuid, Uuids}
use cross_border_logistics.Event.{
  payment_deposit_succeeded, payment_remaining_balance_succeeded, Codec,
}
use cross_border_logistics.Payment.Domain.{
  PaymentType, deposit, remaining_balance, refund, PaymentStatus, pending, succeeded, currency_vnd,
  PaymentError, payment_not_found, invalid_input, invalid_state, dependency, checkout_unavailable,
  internal, Payment, is_pending, is_succeeded, is_remaining, can_transition, OrderPaymentSummary,
  GatewayTransaction, CheckoutForm, Gateway, OutboxEvent, Db,
}
use cross_border_logistics.Payment.Repository.{
  Call, create, find_by_id, find_by_order_id_and_type, find_by_provider_reference, succeed,
  succeed_callback,
}

abbrev pub order_status_waiting_deposit : String
order_status_waiting_deposit = "WAITING_DEPOSIT"

abbrev pub order_status_waiting_remaining_payment : String
order_status_waiting_remaining_payment = "WAITING_REMAINING_PAYMENT"

-- `OrderReader`
abbrev pub Orders : Type 0
Orders = String → Result PaymentError OrderPaymentSummary

unfoldable pub amount_due : PaymentType → OrderPaymentSummary → ℤ
amount_due type summary =
    if is_remaining type then summary.remaining_amount_vnd else summary.deposit_amount_vnd

-- `CreateTransaction`, or the mock without a gateway.
unfoldable pub transaction_of : Option Gateway → String → ℤ → Result PaymentError GatewayTransaction
transaction_of none id amount = ok (record {
  reference = append "mock-" id;
  hosted_url = append "https://mock-payments.local/payments/" id;
})
transaction_of (some gateway) id amount =
    or_error (gateway.create_transaction id amount "VND") dependency

-- The summary of an order is for this order, has an amount to pay, and the status that is expected.
unfoldable pub is_payable : String → ℤ → String → OrderPaymentSummary → Bool
is_payable order_id amount expected summary =
    str_eq summary.order_id order_id && not (leb_ℤ amount (pos 0)) && str_eq summary.status expected

module _ (u : Uuids) where
  -- The payment that `createPayment` makes for an order.
  unfoldable pub new_payment :
      Orders
      → Option Gateway
      → String
      → PaymentType
      → String
      → Uuid
      → ℕ
      → Result PaymentError Payment
  new_payment orders gateway order_id type expected fresh now = do
    summary ← orders order_id
    let amount = amount_due type summary
    fail_if (not (is_payable order_id amount expected summary)) invalid_state
    let id = u.format fresh
    transaction ← transaction_of gateway id amount
    ok (record {
      id = id;
      order_id = order_id;
      type = type;
      amount_vnd = amount;
      currency = currency_vnd;
      status = pending;
      payment_url = transaction.hosted_url;
      provider_reference = transaction.reference;
      created_at = now;
      updated_at = now;
    })

  -- `s.repository.Create`, and the payment that was given to it as the answer.
  store : (Call → Bool) → Result PaymentError Payment → Db → Result PaymentError Payment × Db
  store down (err e) db = (err e, db)
  store down (ok p) db = let (r, db') = create u down p db in (r >>= (λ _. ok p), db')

  -- What `createPayment` does after the lookup of the payment that the order may have.
  after_lookup :
      (Call → Bool)
      → Result PaymentError Payment
      → Result PaymentError Payment
      → Db
      → Result PaymentError Payment × Db
  unfolding store
  after_lookup down (ok existing) made db = (ok existing, db)
  after_lookup down (err payment_not_found) made db = store down made db
  after_lookup down (err e) made db = (err e, db)

  create_parsed :
      Option Uuid
      → (Call → Bool)
      → Orders
      → Option Gateway
      → String
      → PaymentType
      → String
      → Uuid
      → ℕ
      → Db
      → Result PaymentError Payment × Db
  unfolding after_lookup
  create_parsed none down orders gateway order_id type expected fresh now db =
      (err invalid_input, db)
  create_parsed (some k) down orders gateway order_id type expected fresh now db =
      after_lookup down (find_by_order_id_and_type u down order_id type db)
        (new_payment orders gateway order_id type expected fresh now) db

  -- `createPayment`
  unfoldable pub create_payment :
      (Call → Bool)
      → Orders
      → Option Gateway
      → String
      → PaymentType
      → String
      → Uuid
      → ℕ
      → Db
      → Result PaymentError Payment × Db
  unfolding create_parsed
  create_payment down orders gateway order_id =
      create_parsed (u.parse order_id) down orders gateway order_id

  -- `CreateDeposit`
  unfoldable pub create_deposit :
      (Call → Bool)
      → Orders
      → Option Gateway
      → String
      → Uuid
      → ℕ
      → Db
      → Result PaymentError Payment × Db
  create_deposit down orders gateway order_id =
      create_payment down orders gateway (trim_space order_id) deposit order_status_waiting_deposit

  -- `CreateRemainingBalance`
  unfoldable pub create_remaining_balance :
      (Call → Bool)
      → Orders
      → Option Gateway
      → String
      → Uuid
      → ℕ
      → Db
      → Result PaymentError Payment × Db
  create_remaining_balance down orders gateway order_id =
      create_payment down orders gateway (trim_space order_id) remaining_balance
        order_status_waiting_remaining_payment
