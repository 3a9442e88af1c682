-- ===== src/Payment/Http/Security.antt =====
-- The handler with the payment service behind it: what makes a payment succeed.
use cross_border_logistics.Prelude.{
  ℕ, String, Bool, true, false, Option, some, List, ◌∷◌, ◌≡◌, ◌⊎◌, inl, inr, refl, arith, ap, ◌∙◌,
  sym, subst, Result, ok, err, Bool-cases,
}
use mathlib.Core.Option.{some-injective}
use cross_border_logistics.Go.{trim_space}
use cross_border_logistics.External.{Uuid, Uuids}
use cross_border_logistics.Event.{Codec}
use cross_border_logistics.Http.{Body, refused, followed, one_value}
use cross_border_logistics.Payment.Domain.{
  PaymentType, PaymentError, Payment, deposit, remaining_balance, Gateway, Db,
}
use cross_border_logistics.Payment.Repository.{Call}
use cross_border_logistics.Payment.Repository.Stored.{create_effect}
use cross_border_logistics.Payment.Service.{
  Orders, order_status_waiting_deposit, order_status_waiting_remaining_payment, create_payment,
  create_deposit, create_remaining_balance,
}
use cross_border_logistics.Payment.Service.Creation.{create_steps}
use cross_border_logistics.Payment.Service.Success.{
  SePayWebhookInput, get, mark_succeeded, process_sepay_webhook, build_checkout,
}
use cross_border_logistics.Payment.Service.Webhook.{Settled, webhook_settles}
use cross_border_logistics.Payment.Http.{
  Service, get_payment, Handler, new_handler, is_demo, answer, checkout,
  create_payment as post_payment,
}
use cross_border_logistics.Payment.Http.Callbacks.{Wire, Webhook, Ipn}
use cross_border_logistics.Payment.Http.Callbacks.Authentic.{
  IsSigned, IsPaidNotice, Processes, webhook_authentic, ipn_authentic,
}
use cross_border_logistics.Payment.Http.Routes.{
  Request, ask_health, ask_deposit, ask_remaining_balance, send_webhook, ask_checkout, send_ipn,
  ask_payment, ask_mock_success, is_registered, handle, serve,
}

-- A request that carries a proof of payment for what the service then processes.
pub data Proves (w : Wire) (h : Handler) (now : ℕ) : Request → SePayWebhookInput → Type 0 where
  by_webhook :
      (r : Webhook) (input : SePayWebhookInput)
      → IsSigned w h now r input
      → Proves w h now (send_webhook r) input
  by_notice :
      (r : Ipn) (input : SePayWebhookInput)
      → IsPaidNotice w h r input
      → Proves w h now (send_ipn r) input

module _ (u : Uuids) (c : Codec) (down : Call → Bool) (orders : Orders) (gateway : Option Gateway)
    (fresh : Uuid) (at : ℕ) where
  -- The payment service during one request: its failures, its clock and its next UUID.
  unfoldable pub payment_service : Service Db
  payment_service = record {
    create_deposit = λ id db. create_deposit u down orders gateway id fresh at db;
    create_remaining_balance =
        λ id db. create_remaining_balance u down orders gateway id fresh at db;
    get = λ id db. get u c down id db;
    mark_succeeded = λ id db. mark_succeeded u c down id fresh at db;
    process_sepay_webhook = some (λ input db. process_sepay_webhook u c down fresh at input db);
    build_checkout = some (λ id db. build_checkout u c down gateway id db);
  }

  create_queues_nothing :
      (order_id : String) (type : PaymentType) (expected : String) (db : Db)
      → (create_payment u down orders gateway order_id type expected fresh at db).1.outbox_events
        ≡ db.outbox_events
  create_queues_nothing order_id type expected db =
      elim (create_steps u down orders gateway order_id type expected fresh at db) [
        | inl same ↦ ap (λ (x : Db). x.outbox_events) same
        | inr (p, pending, made) ↦ elim (create_effect u down p db) [
          | inl same ↦ ap (λ (x : Db). x.outbox_events) (made ∙ same)
          | inr stored ↦ ap (λ (x : Db). x.outbox_events) made ∙ stored.queue_kept
        ]
      ]

  answer_state : (status : ℕ) (x : Result PaymentError Payment × Db) → (answer status x).1 ≡ x.1
  unfolding answer
  answer_state status (ok p, db) = refl
  answer_state status (err e, db) = refl

  -- What a callback that is accepted does: nothing to the outbox, or it settles a payment.
  callback_settles :
      (Accepts : SePayWebhookInput → Type 0) (db db' : Db)
      → Processes payment_service Accepts db db'
      → (db'.outbox_events ≡ db.outbox_events)
        ⊎ ((input : SePayWebhookInput) × Accepts input × Settled u c down fresh at input db db')
  unfolding payment_service
  callback_settles Accepts db db' (inl same) = inl (ap (λ (x : Db). x.outbox_events) same)
  callback_settles Accepts db db' (inr (input, accepted, process, is_process, result)) =
      let run = process_sepay_webhook u c down fresh at in
      let here : db' ≡ (run input db).1 =
        result
        ∙ sym (
            ap (λ (f : SePayWebhookInput → Db → Result PaymentError Payment × Db). (f input db).1)
              (some-injective _ _ is_process)) in
      elim (webhook_settles u c down fresh at input db) [
        | inl (payments, queue) ↦ inl (ap (λ (x : Db). x.outbox_events) here ∙ queue)
        | inr settled ↦
            inr (input, accepted, subst (Settled u c down fresh at input db) (sym here) settled)
      ]

  -- The outbox is as before, or the request proves a payment that has been settled.
  abbrev pub Pays : Wire → Handler → ℕ → Request → Db → Db → Type 0
  Pays w h now request db db' =
      (db'.outbox_events ≡ db.outbox_events)
      ⊎ ((input : SePayWebhookInput) × Proves w h now request input
          × Settled u c down fresh at input db db')

  created :
      (body : Body String) (db : Db)
      → ((post_payment payment_service payment_service.create_deposit body db).1.outbox_events
          ≡ db.outbox_events)
        × ((post_payment payment_service payment_service.create_remaining_balance body
              db).1.outbox_events
            ≡ db.outbox_events)
  unfolding payment_service post_payment create_deposit create_remaining_balance
  created refused db = (refl, refl)
  created followed db = (refl, refl)
  created (one_value id) db = (
    ap (λ (x : Db). x.outbox_events) (answer_state 201 _)
        ∙ create_queues_nothing (trim_space id) deposit order_status_waiting_deposit db,
    ap (λ (x : Db). x.outbox_events) (answer_state 201 _)
        ∙ create_queues_nothing (trim_space id) remaining_balance
            order_status_waiting_remaining_payment db,
  )

  checkout_state :
      (w : Wire) (id : String) (db : Db)
      → (checkout payment_service w.render id db).1.outbox_events ≡ db.outbox_events
  unfolding checkout payment_service
  checkout_state w id db = refl

  handle-Pays :
      (w : Wire) (h : Handler) (now : ℕ) (request : Request) (db : Db)
      → h.demo ≡ false
      → is_registered h request ≡ true
      → Pays w h now request db (handle payment_service w h now request db).1
  unfolding handle is_registered checkout get_payment
  handle-Pays w h now ask_health db production known = inl refl
  handle-Pays w h now (ask_deposit body) db production known = inl (created body db).0
  handle-Pays w h now (ask_remaining_balance body) db production known = inl (created body db).1
  handle-Pays w h now (send_webhook r) db production known =
      elim (callback_settles (IsSigned w h now r) db _
        (webhook_authentic payment_service w h now r db)) [
          | inl same ↦ inl same
          | inr (input, signed, settled) ↦ inr (input, by_webhook r input signed, settled)
        ]
  handle-Pays w h now (ask_checkout id) db production known = inl (checkout_state w id db)
  handle-Pays w h now (send_ipn r) db production known =
      elim (callback_settles (IsPaidNotice w h r) db _ (ipn_authentic payment_service w h r db)) [
        | inl same ↦ inl same
        | inr (input, notice, settled) ↦ inr (input, by_notice r input notice, settled)
      ]
  handle-Pays w h now (ask_payment id) db production known =
      inl (ap (λ (x : Db). x.outbox_events) (answer_state 200 _))
  handle-Pays w h now (ask_mock_success id) db production known = absurd (ground arith)

  serve-Pays :
      (w : Wire) (h : Handler) (now : ℕ) (request : Request) (db : Db)
      → h.demo ≡ false
      → Pays w h now request db (serve payment_service w h now request db).1
  unfolding serve
  serve-Pays w h now request db production = elim (Bool-cases (is_registered h request)) [
    | inl known ↦ rw known (handle-Pays w h now request db production known)
    | inr unknown ↦ rw unknown (inl refl)
  ]

  not_demo :
      (to_lower : String → String) (secret env : String) (options : List String)
      → is_demo env ≡ false
      → (new_handler to_lower (secret ∷ env ∷ options)).demo ≡ false
  unfolding new_handler
  not_demo to_lower secret env options production = rw production refl

  -- In an environment that is neither development nor demo, whatever is asked of the payment service
  -- over HTTP and whichever calls of its database fail, a success event is queued only by a request
  -- that carries a proof: a callback signed with the secret for a time at most five minutes away, or
  -- a notice with the secret of the gateway; and it settles a pending payment of exactly the amount
  -- proved.
  pub success_needs_proof :
      (to_lower : String → String) (secret env : String) (options : List String) (w : Wire)
      (now : ℕ) (request : Request) (db : Db)
      → is_demo env ≡ false
      → Pays w
          (new_handler to_lower (secret ∷ env ∷ options))
          now
          request
          db
          (serve payment_service w (new_handler to_lower (secret ∷ env ∷ options)) now request db).1
  success_needs_proof to_lower secret env options w now request db production =
      serve-Pays w (new_handler to_lower (secret ∷ env ∷ options)) now request db
        (not_demo to_lower secret env options production)
