-- ===== src/Payment/Http/Routes.antt =====
-- backend/internal/payment/adapters/http/handler.go: the routes that `New` registers.
use cross_border_logistics.Prelude.{
  ℕ, String, Bool, true, Option, none, some, str_eq, if◌then◌else◌,
}
use cross_border_logistics.Http.{Response, success, Body}
use cross_border_logistics.Payment.Http.{
  Service, Handler, Shown, health, create_payment, get_payment, mock_success, checkout,
}
use cross_border_logistics.Payment.Http.Callbacks.{Wire, Webhook, Ipn, sepay_webhook, sepay_pg_ipn}

-- A request with a method and path that `New` knows, and what is read of it. A webhook is one to
-- either of its two paths.
pub data Request : Type 0 where
  ask_health : Request
  ask_deposit : Body String → Request
  ask_remaining_balance : Body String → Request
  send_webhook : Webhook → Request
  ask_checkout : String → Request
  send_ipn : Ipn → Request
  ask_payment : String → Request
  ask_mock_success : String → Request

-- The route is registered.
unfoldable pub is_registered : Handler → Request → Bool
is_registered h (send_webhook r) = str_eq h.provider "sepay"
is_registered h (ask_checkout id) = str_eq h.provider "sepay_pg"
is_registered h (send_ipn r) = str_eq h.provider "sepay_pg"
is_registered h (ask_mock_success id) = h.demo
is_registered h _ = true

module _ {S : Type 0} (service : Service S) (w : Wire) where
  -- The handler of a route.
  unfoldable pub handle : Handler → ℕ → Request → S → Response Shown × S
  handle h now ask_health s = (success 200 health, s)
  handle h now (ask_deposit body) s = create_payment service service.create_deposit body s
  handle h now (ask_remaining_balance body) s =
      create_payment service service.create_remaining_balance body s
  handle h now (send_webhook r) s = sepay_webhook service w h now r s
  handle h now (ask_checkout id) s = checkout service w.render id s
  handle h now (send_ipn r) s = sepay_pg_ipn service w h r s
  handle h now (ask_payment id) s = get_payment service id s
  handle h now (ask_mock_success id) s = mock_success service id s

  -- A request to the handler that `New` makes; `none` is the answer of the mux itself.
  unfoldable pub serve : Handler → ℕ → Request → S → Option (Response Shown) × S
  unfolding is_registered handle
  serve h now request s =
      if is_registered h request
      then (let (r, s') = handle h now request s in (some r, s'))
      else (none, s)
