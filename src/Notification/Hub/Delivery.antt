-- ===== src/Notification/Hub/Delivery.antt =====
-- What a client reads, all in all.
use cross_border_logistics.Prelude.{
  ℕ, String, true, none, some, List, [], ◌∷◌, ◌++◌, ◌≡◌, ◌∙◌, refl, sym, ap, arith, str_eq, ltb,
  length, find, find-append_last, append_assoc, append-nil, Bool-cases, inl, inr, ==_refl,
}
use cross_border_logistics.External.{Uuids}
use cross_border_logistics.Event.{Envelope}
use cross_border_logistics.Notification.Hub.{
  channel_capacity, Channel, Hub, offer, has_key, channel_is, replay_from, subscribe, take_one,
  Action, published, subscribed, received, left, run_hub,
}
use cross_border_logistics.Notification.Hub.History.{events_of}
use cross_border_logistics.Notification.Hub.Streams.{
  new_channel, act_channel, run_channel, stays, keeps_up, find_run,
}

module _ (u : Uuids) where
  abbrev flow : Channel → List Envelope
  flow c = c.sent ++ c.buffer

  flow-offer :
      (e : Envelope) (c : Channel)
      → ltb (length c.buffer) channel_capacity ≡ true
      → flow (offer e c) ≡ flow c ++ e ∷ []
  unfolding offer
  flow-offer e c room = rw room (sym (append_assoc c.sent c.buffer (e ∷ [])))

  flow_take : (c : Channel) → flow (take_one c) ≡ flow c
  unfolding take_one
  flow_take c = go c.buffer refl
    where
      go :
          (b : List Envelope)
          → c.buffer ≡ b
          → flow (elim b as (λ x. Channel) [
            | [] ↦ c
            | e ∷ rest ↦ record c { buffer = rest; sent = c.sent ++ e ∷ [] }
          ])
            ≡ flow c
      go [] e = refl
      go (x ∷ rest) e = append_assoc c.sent (x ∷ []) rest ∙ ap (λ b. c.sent ++ b) (sym e)

  offer-key : (e : Envelope) (c : Channel) → (offer e c).key ≡ c.key
  unfolding offer
  offer-key e c = ground arith

  pub take_one-key : (c : Channel) → (take_one c).key ≡ c.key
  unfolding take_one
  take_one-key c = ground arith

  -- Events for a channel that has room go behind what it has.
  flow_next :
      (actions : List Action) (e : Envelope) (c : Channel)
      → ltb (length c.buffer) channel_capacity ≡ true
      → flow (run_channel u actions (offer e c))
        ≡ flow (offer e c) ++ events_of u (offer e c).key actions
      → flow (run_channel u actions (offer e c)) ≡ flow c ++ e ∷ events_of u c.key actions
  flow_next actions e c room h =
      h
      ∙ ap (λ k. flow (offer e c) ++ events_of u k actions) (offer-key e c)
      ∙ ap (λ f. f ++ events_of u c.key actions) (flow-offer e c room)
      ∙ append_assoc (flow c) (e ∷ []) (events_of u c.key actions)

  flow_same :
      (actions : List Action) (c : Channel)
      → flow (run_channel u actions (take_one c))
        ≡ flow (take_one c) ++ events_of u (take_one c).key actions
      → flow (run_channel u actions (take_one c)) ≡ flow c ++ events_of u c.key actions
  flow_same actions c h =
      h
      ∙ ap (λ k. flow (take_one c) ++ events_of u k actions) (take_one-key c)
      ∙ ap (λ f. f ++ events_of u c.key actions) (flow_take c)

  flow_run :
      (actions : List Action) (c : Channel)
      → keeps_up u actions c ≡ true
      → flow (run_channel u actions c) ≡ flow c ++ events_of u c.key actions
  unfolding run_channel keeps_up events_of act_channel
  flow_run [] c k = sym (append-nil (flow c))
  flow_run (published e ∷ actions) c k = elim (Bool-cases (has_key (u.format e.aggregate_id) c)) [
    | inl mine ↦
        (let now : act_channel u (published e) c ≡ offer e c = rw mine refl in
          ap (λ x. flow (run_channel u actions x)) now
          ∙ flow_next actions e c (ground arith) (flow_run actions (offer e c) (ground arith))
          ∙ rw mine refl)
    | inr other ↦
        (let now : act_channel u (published e) c ≡ c = rw other refl in
          ap (λ x. flow (run_channel u actions x)) now
          ∙ flow_run actions c (ground arith)
          ∙ rw other refl)
  ]
  flow_run (subscribed n id last ∷ actions) c k = flow_run actions c k
  flow_run (received n ∷ actions) c k = elim (Bool-cases (channel_is n c)) [
    | inl mine ↦
        (let now : act_channel u (received n) c ≡ take_one c = rw mine refl in
          ap (λ x. flow (run_channel u actions x)) now
          ∙ flow_same actions c (flow_run actions (take_one c) (ground arith)))
    | inr other ↦
        (let now : act_channel u (received n) c ≡ c = rw other refl in
          ap (λ x. flow (run_channel u actions x)) now ∙ flow_run actions c (ground arith))
  ]
  flow_run (left n ∷ actions) c k = flow_run actions c k

  -- Whatever happens to the hub behind a subscription, in any order, as long as the stream is open
  -- and its channel has room for each event: what the client has been sent, with what waits in its
  -- channel, is the replay and then every event of its order, each once and in their order.
  pub stream_complete :
      (n : ℕ) (id last : String) (h : Hub) (actions : List Action)
      → find (channel_is n) h.channels ≡ none
      → stays u n actions ≡ true
      → keeps_up u actions (new_channel u n id last h) ≡ true
      → (c : Channel) × (find (channel_is n) (run_hub u actions (subscribe u n id last h)).channels
          ≡ some c)
        × (c.sent ++ c.buffer
            ≡ replay_from u last (str_eq last "") (h.history id) ++ events_of u id actions)
  unfolding subscribe
  stream_complete n id last h actions new open_ up = (
    run_channel u actions (new_channel u n id last h),
    find_run u actions n (subscribe u n id last h) (new_channel u n id last h)
        (find-append_last (channel_is n) h.channels (new_channel u n id last h) new (==_refl n))
        open_,
    flow_run actions (new_channel u n id last h) up
        ∙ ap (λ f. f ++ events_of u id actions) (append-nil _),
  )
