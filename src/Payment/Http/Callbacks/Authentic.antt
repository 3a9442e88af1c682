-- ===== src/Payment/Http/Callbacks/Authentic.antt =====
-- A callback reaches the payment service only if it is authentic.
use cross_border_logistics.Prelude.{
  ℕ, ℤ, String, true, false, none, some, ◌≡◌, ◌⊎◌, inl, inr, refl, arith, str_eq, eq_ℤ, Result, ok,
  err, Option-cases,
}
use cross_border_logistics.Go.{is_empty, trim_space}
use cross_border_logistics.Go.Numbers.{parse_int}
use cross_border_logistics.Http.{Response}
use cross_border_logistics.Payment.Domain.{PaymentError, Payment}
use cross_border_logistics.Payment.Service.Success.{SePayWebhookInput}
use cross_border_logistics.Payment.Http.{Service, Handler, Shown}
use cross_border_logistics.Payment.Http.Callbacks.{
  WebhookRequest, IpnRequest, Wire, Webhook, Ipn, is_stale, expected_signature, is_for_account,
  webhook_input, parse_sepay_pg_amount, is_paid_order, ipn_input, acknowledge, process_callback,
  sepay_webhook, sepay_pg_ipn,
}

module _ (w : Wire) (h : Handler) (now : ℕ) (request : Webhook) where
  -- The body was signed with the secret at most five minutes from now, and is a callback with a
  -- reference for the account.
  pub record IsSigned (input : SePayWebhookInput) : Type 0 where
    pub body : String
    pub is_body : request.body ≡ some body
    pub seconds : ℤ
    pub is_time : parse_int (trim_space request.timestamp) ≡ some seconds
    pub fresh : is_stale now seconds ≡ false
    pub signed :
        str_eq
          (expected_signature w h (trim_space request.timestamp) body)
          (trim_space request.signature)
        ≡ true
    pub callback : WebhookRequest
    pub is_callback : w.webhook body ≡ some callback
    pub reference : callback.code ≡ some input.provider_reference
    pub account : is_for_account h callback.account_number ≡ true
    pub amount : callback.transfer_amount ≡ input.transfer_amount_vnd
    pub direction : callback.transfer_type ≡ input.transfer_type

  parts :
      (input : SePayWebhookInput)
      → webhook_input w h now request ≡ ok input
      → (body : String) × (request.body ≡ some body)
        × (seconds : ℤ) × (parse_int (trim_space request.timestamp) ≡ some seconds)
        × (callback : WebhookRequest) × (w.webhook body ≡ some callback)
  unfolding webhook_input
  parts input e = elim (Option-cases request.body) [
    | inl no_body ↦ absurd (ground arith)
    | inr (body, is_body) ↦ elim (Option-cases (parse_int (trim_space request.timestamp))) [
      | inl no_time ↦ absurd (ground arith)
      | inr (seconds, is_time) ↦ elim (Option-cases (w.webhook body)) [
        | inl no_callback ↦ absurd (ground arith)
        | inr (callback, is_callback) ↦ (body, is_body, seconds, is_time, callback, is_callback)
      ]
    ]
  ]

  webhook_input-IsSigned :
      (input : SePayWebhookInput) → webhook_input w h now request ≡ ok input → IsSigned input
  unfolding webhook_input
  webhook_input-IsSigned input e =
      let (body, is_body, seconds, is_time, callback, is_callback) = parts input e in
      record {
        body = body;
        is_body = is_body;
        seconds = seconds;
        is_time = is_time;
        fresh = ground arith;
        signed = ground arith;
        callback = callback;
        is_callback = is_callback;
        reference = ground arith;
        account = ground arith;
        amount = ground arith;
        direction = ground arith;
      }

module _ (w : Wire) (h : Handler) (request : Ipn) where
  -- The notification came with the secret that is configured, and is of a paid order whose two
  -- amounts agree.
  pub record IsPaidNotice (input : SePayWebhookInput) : Type 0 where
    pub configured : is_empty h.pg_ipn_secret ≡ false
    pub secret : str_eq h.pg_ipn_secret (trim_space request.secret_key) ≡ true
    pub body : String
    pub is_body : request.body ≡ some body
    pub notice : IpnRequest
    pub is_notice : w.ipn body ≡ some notice
    pub kind : str_eq notice.notification_type "ORDER_PAID" ≡ true
    pub paid : is_paid_order notice ≡ true
    pub reference : notice.order.invoice_number ≡ input.provider_reference
    pub order_amount : parse_sepay_pg_amount w notice.order.amount ≡ some input.transfer_amount_vnd
    pub transaction_amount : ℤ
    pub is_amount : parse_sepay_pg_amount w notice.transaction.amount ≡ some transaction_amount
    pub same_amount : eq_ℤ transaction_amount input.transfer_amount_vnd ≡ true

  ipn_parts :
      (input : SePayWebhookInput)
      → ipn_input w h request ≡ ok input
      → (body : String) × (request.body ≡ some body)
        × (notice : IpnRequest) × (w.ipn body ≡ some notice)
        × (paid : ℤ) × (parse_sepay_pg_amount w notice.transaction.amount ≡ some paid)
        × (amount : ℤ) × (parse_sepay_pg_amount w notice.order.amount ≡ some amount)
  unfolding ipn_input
  ipn_parts input e = elim (Option-cases request.body) [
    | inl no_body ↦ absurd (ground arith)
    | inr (body, is_body) ↦ elim (Option-cases (w.ipn body)) [
      | inl no_notice ↦ absurd (ground arith)
      | inr (notice, is_notice) ↦
          elim (Option-cases (parse_sepay_pg_amount w notice.transaction.amount)) [
            | inl no_amount ↦ absurd (ground arith)
            | inr (paid, is_paid) ↦
                elim (Option-cases (parse_sepay_pg_amount w notice.order.amount)) [
                  | inl no_amount ↦ absurd (ground arith)
                  | inr (amount, is_amount) ↦
                      (body, is_body, notice, is_notice, paid, is_paid, amount, is_amount)
                ]
          ]
    ]
  ]

  ipn_input-IsPaidNotice :
      (input : SePayWebhookInput) → ipn_input w h request ≡ ok input → IsPaidNotice input
  unfolding ipn_input
  ipn_input-IsPaidNotice input e =
      let (body, is_body, notice, is_notice, paid, is_paid, amount, is_amount) =
        ipn_parts input e in
      record {
        configured = ground arith;
        secret = ground arith;
        body = body;
        is_body = is_body;
        notice = notice;
        is_notice = is_notice;
        kind = ground arith;
        paid = ground arith;
        reference = ground arith;
        order_amount = ground arith;
        transaction_amount = paid;
        is_amount = is_paid;
        same_amount = ground arith;
      }

-- A callback leaves the state of the service alone, or the service has processed an input.
abbrev pub Processes : {S : Type 0} → Service S → (SePayWebhookInput → Type 0) → S → S → Type 0
Processes {S} service Accepts s s' =
    (s' ≡ s)
    ⊎ ((input : SePayWebhookInput) × Accepts input
        × (process : (SePayWebhookInput → S → Result PaymentError Payment × S))
        × (service.process_sepay_webhook ≡ some process)
        × (s' ≡ (process input s).1))

module _ {S : Type 0} (service : Service S) where
  refused_early :
      (r : Result (Response Shown) SePayWebhookInput) (early : Response Shown) (s : S)
      → r ≡ err early
      → (process_callback service r s).1 ≡ s
  unfolding process_callback
  refused_early r early s e = rw e refl

  acknowledge_state : (x : Result PaymentError Payment × S) → (acknowledge x).1 ≡ x.1
  unfolding acknowledge
  acknowledge_state (ok p, s) = refl
  acknowledge_state (err e, s) = refl

  processed :
      (r : Result (Response Shown) SePayWebhookInput) (input : SePayWebhookInput) (s : S)
      (process : SePayWebhookInput → S → Result PaymentError Payment × S)
      → r ≡ ok input
      → service.process_sepay_webhook ≡ some process
      → (process_callback service r s).1 ≡ (process input s).1
  unfolding process_callback
  processed r input s process e p = rw (e, p) (acknowledge_state (process input s))

  unavailable :
      (r : Result (Response Shown) SePayWebhookInput) (input : SePayWebhookInput) (s : S)
      → r ≡ ok input
      → service.process_sepay_webhook ≡ none
      → (process_callback service r s).1 ≡ s
  unfolding process_callback
  unavailable r input s e p = rw (e, p) refl

  -- Whatever the service is, a callback that its state depends on has passed the checks.
  process_callback-Processes :
      (r : Result (Response Shown) SePayWebhookInput) (Accepts : SePayWebhookInput → Type 0) (s : S)
      → ((input : SePayWebhookInput) → r ≡ ok input → Accepts input)
      → Processes service Accepts s (process_callback service r s).1
  process_callback-Processes r Accepts s accepts = go r refl
    where
      go :
          (x : Result (Response Shown) SePayWebhookInput)
          → r ≡ x
          → Processes service Accepts s (process_callback service r s).1
      go (err early) e = inl (refused_early r early s e)
      go (ok input) e = elim (Option-cases service.process_sepay_webhook) [
        | inl missing ↦ inl (unavailable r input s e missing)
        | inr (process, there) ↦
            inr (input, accepts input e, process, there, processed r input s process e there)
      ]

  -- Whatever the service is, a webhook leaves its state alone, or the service has processed exactly
  -- the reference, amount and direction of a body that was signed with the secret for a time at most
  -- five minutes away, and that is for the account that is configured.
  pub webhook_authentic :
      (w : Wire) (h : Handler) (now : ℕ) (request : Webhook) (s : S)
      → Processes service (IsSigned w h now request) s (sepay_webhook service w h now request s).1
  unfolding sepay_webhook
  webhook_authentic w h now request s =
      process_callback-Processes (webhook_input w h now request) (IsSigned w h now request) s
        (webhook_input-IsSigned w h now request)

  -- Whatever the service is, a notification of the payment gateway leaves its state alone, or it came
  -- with the secret, which is configured and not empty, is of a captured order and an approved
  -- transaction in VND of the same amount, and the service has processed this amount.
  pub ipn_authentic :
      (w : Wire) (h : Handler) (request : Ipn) (s : S)
      → Processes service (IsPaidNotice w h request) s (sepay_pg_ipn service w h request s).1
  unfolding sepay_pg_ipn
  ipn_authentic w h request s =
      process_callback-Processes (ipn_input w h request) (IsPaidNotice w h request) s
        (ipn_input-IsPaidNotice w h request)
