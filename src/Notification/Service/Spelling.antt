-- ===== src/Notification/Service/Spelling.antt =====
-- A stream whose order id is a UUID in another spelling than the one that events are filed under.
use cross_border_logistics.Prelude.{
  ℕ, String, true, false, some, none, List, [], ◌∷◌, ◌++◌, ◌≡◌, ◌∙◌, refl, arith, ap, str_eq, find,
  drop, last_n,
}
use cross_border_logistics.External.{Uuid, Uuids}
use cross_border_logistics.Notification.Hub.{
  history_limit, Channel, new_hub, channel_is, replay_from, subscribe, Action, published,
  subscribed, received, left, run_hub, take_one,
}
use cross_border_logistics.Notification.Hub.History.{events_of, history-last_n}
use cross_border_logistics.Notification.Hub.Streams.{stays, keeps_up, act_channel, new_channel}
use cross_border_logistics.Notification.Hub.Delivery.{stream_complete, take_one-key}

module _ (u : Uuids) (id : String) (unlike : (k : Uuid) → str_eq id (u.format k) ≡ false) where
  no_events : (actions : List Action) → events_of u id actions ≡ []
  unfolding events_of
  no_events [] = refl
  no_events (published e ∷ actions) = ground (arith, unlike e.aggregate_id, no_events actions)
  no_events (subscribed n k last ∷ actions) = no_events actions
  no_events (received n ∷ actions) = no_events actions
  no_events (left n ∷ actions) = no_events actions

  never_full : (actions : List Action) (c : Channel) → c.key ≡ id → keeps_up u actions c ≡ true
  unfolding keeps_up act_channel take_one
  never_full [] c h = refl
  never_full (published e ∷ actions) c h =
      let other : str_eq c.key (u.format e.aggregate_id) ≡ false = rw h (unlike e.aggregate_id) in
      ground (arith, other, never_full actions c h)
  never_full (subscribed n k last ∷ actions) c h = never_full actions c h
  never_full (received n ∷ actions) c h =
      ground (arith, never_full actions c h, never_full actions (take_one c) (take_one-key u c ∙ h))
  never_full (left n ∷ actions) c h = never_full actions c h

  -- A stream whose order id is not the text that any UUID is filed under, as an upper-case spelling,
  -- never gets an event: whatever was and is published, its client is sent nothing and nothing waits
  -- for it.
  pub other_spelling_silent :
      (n : ℕ) (last : String) (before actions : List Action)
      → find (channel_is n) (run_hub u before new_hub).channels ≡ none
      → stays u n actions ≡ true
      → (c : Channel) × (find
            (channel_is n)
            (run_hub u actions (subscribe u n id last (run_hub u before new_hub))).channels
          ≡ some c)
        × (c.sent ++ c.buffer ≡ [])
  unfolding replay_from last_n drop
  other_spelling_silent n last before actions new open_ =
      let h = run_hub u before new_hub in
      let stream =
        stream_complete u n id last h actions new open_
          (never_full actions (new_channel u n id last h) refl) in
      let empty : h.history id ≡ [] =
        history-last_n u id before ∙ ap (last_n history_limit) (no_events before) in
      (
        stream.0,
        stream.1,
        stream.2
            ∙ ap (λ es. es ++ events_of u id actions)
                (ap (replay_from u last (str_eq last "")) empty)
            ∙ no_events actions,
      )
