-- ===== src/Payment/Http.antt =====
-- backend/internal/payment/adapters/http/handler.go: the handler, its routes and its answers.
-- The service is a record of operations on a state; encoding/json, crypto/hmac and html/template
-- are the parameter Wire, and so is strings.ToLower.
pub mod Callbacks
pub mod Routes
pub mod Security
use cross_border_logistics.Prelude.{
  ℕ, zero, suc, ℤ, String, Bool, true, false, ◌&&◌, ◌||◌, Option, none, some, List, [], ◌∷◌, str_eq,
  if◌then◌else◌, Result, ok, err,
}
use cross_border_logistics.Go.{is_empty, trim_space}
use cross_border_logistics.Http.{
  Response, success, failure, Body, refused, followed, one_value, validation_error, not_found,
  conflict, invalid_state_code, dependency_error, internal_error, internal_message, invalid_json,
  one_object,
}
use cross_border_logistics.Payment.Domain.{
  PaymentError, payment_not_found, payment_conflict, invalid_input, invalid_state, order_not_found,
  dependency, checkout_unavailable, internal, Payment, CheckoutForm,
}
use cross_border_logistics.Payment.Service.Success.{SePayWebhookInput}

-- `Service`, with the interfaces that it may have: `SePayWebhookService` and `CheckoutService`
pub record Service (S : Type 0) : Type 0 where
  pub create_deposit : String → S → Result PaymentError Payment × S
  pub create_remaining_balance : String → S → Result PaymentError Payment × S
  pub get : String → S → Result PaymentError Payment
  pub mark_succeeded : String → S → Result PaymentError Payment × S
  pub process_sepay_webhook : Option (SePayWebhookInput → S → Result PaymentError Payment × S)
  pub build_checkout : Option (String → S → Result PaymentError CheckoutForm)

pub record Handler : Type 0 where
  pub webhook_secret : String
  pub account_number : String
  pub pg_ipn_secret : String
  pub provider : String
  pub demo : Bool

option_at : ℕ → List String → Option String
option_at n [] = none
option_at zero (x ∷ xs) = some x
option_at (suc n) (x ∷ xs) = option_at n xs

abbrev pub default_secret : String
default_secret = "demo-webhook-secret"

abbrev or_default : String → Option String → String
or_default d none = d
or_default d (some x) = x

secret_of : Option String → String
secret_of none = default_secret
secret_of (some x) = if is_empty (trim_space x) then default_secret else x

trimmed_or : String → Option String → String
trimmed_or d none = d
trimmed_or d (some x) = trim_space x

abbrev pub is_demo : String → Bool
is_demo env = str_eq env "development" || str_eq env "demo"

-- `New`, the handler that it makes
unfoldable pub new_handler : (String → String) → List String → Handler
unfolding option_at secret_of trimmed_or
new_handler to_lower options =
    let provider : String = elim (option_at 3 options) [
      | none ↦ "mock"
      | some x ↦ to_lower (trim_space x)
    ] in
    record {
      webhook_secret = secret_of (option_at 0 options);
      account_number = trimmed_or "" (option_at 2 options);
      pg_ipn_secret = trimmed_or "" (option_at 4 options);
      provider = provider;
      demo = is_demo (or_default "development" (option_at 1 options)) && str_eq provider "mock";
    }

-- The data of an answer.
pub data Shown : Type 0 where
  payment : Payment → Shown
  page : String → Shown
  health : Shown

-- `writeError`
unfoldable pub write_error : PaymentError → Response Shown
write_error invalid_input = failure 400 validation_error "payment input is invalid"
write_error payment_not_found = failure 404 not_found "payment or order was not found"
write_error order_not_found = failure 404 not_found "payment or order was not found"
write_error payment_conflict = failure 409 conflict "payment already exists for this order"
write_error invalid_state =
    failure 409 invalid_state_code "order or payment is not in a valid state"
write_error dependency = failure 502 dependency_error "order service is unavailable"
write_error checkout_unavailable =
    failure 409 "CHECKOUT_UNAVAILABLE" "hosted checkout is unavailable for this payment"
write_error internal = failure 500 internal_error internal_message

-- A payment is shown with a status, or its error is.
unfoldable pub answer : {S : Type 0} → ℕ → Result PaymentError Payment × S → Response Shown × S
answer status (ok p, s) = (success status (payment p), s)
answer status (err e, s) = (write_error e, s)

module _ {S : Type 0} (service : Service S) where
  -- `createPayment`
  unfoldable pub create_payment :
      (String → S → Result PaymentError Payment × S) → Body String → S → Response Shown × S
  unfolding answer
  create_payment create refused s = (failure 400 validation_error invalid_json, s)
  create_payment create followed s = (failure 400 validation_error one_object, s)
  create_payment create (one_value order_id) s = answer 201 (create order_id s)

  -- `get`
  unfoldable pub get_payment : String → S → Response Shown × S
  unfolding answer
  get_payment id s = answer 200 (service.get id s, s)

  -- `mockSuccess`
  unfoldable pub mock_success : String → S → Response Shown × S
  unfolding answer
  mock_success id s = answer 200 (service.mark_succeeded id s)

  show_page : (CheckoutForm → Option String) → Result PaymentError CheckoutForm → Response Shown
  show_page render (err e) = write_error e
  show_page render (ok form) = elim (render form) [
    | none ↦ failure 500 internal_error internal_message
    | some html ↦ success 200 (page html)
  ]

  -- `checkout`
  unfoldable pub checkout : (CheckoutForm → Option String) → String → S → Response Shown × S
  unfolding show_page
  checkout render id s = elim service.build_checkout [
    | none ↦ (write_error checkout_unavailable, s)
    | some build ↦ (show_page render (build id s), s)
  ]
