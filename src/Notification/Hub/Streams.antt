-- ===== src/Notification/Hub/Streams.antt =====
-- One channel of the hub.
use cross_border_logistics.Prelude.{
  ℕ, String, Bool, true, not, ◌&&◌, some, List, [], ◌∷◌, ◌==◌, ◌≡◌, refl, arith, str_eq, ltb,
  if◌then◌else◌, length, find, find-append, find-keep, find-update_where, ◌||◌,
}
use cross_border_logistics.External.{Uuids}
use cross_border_logistics.Notification.Hub.{
  channel_capacity, Channel, Hub, offer, has_key, channel_is, publish, replay_from, subscribe,
  take_one, receive, leave, Action, published, subscribed, received, left, act, run_hub,
}

module _ (u : Uuids) where
  -- The channel of a new subscription.
  abbrev pub new_channel : ℕ → String → String → Hub → Channel
  new_channel n id last h = record {
    id = n;
    key = id;
    buffer = [];
    sent = replay_from u last (str_eq last "") (h.history id);
  }

  -- The actions as one channel sees them.
  unfoldable pub act_channel : Action → Channel → Channel
  act_channel (published e) c = if has_key (u.format e.aggregate_id) c then offer e c else c
  act_channel (subscribed n id last) c = c
  act_channel (received n) c = if channel_is n c then take_one c else c
  act_channel (left n) c = c

  unfoldable pub run_channel : List Action → Channel → Channel
  run_channel [] c = c
  run_channel (a ∷ actions) c = run_channel actions (act_channel a c)

  -- The channel is not closed.
  unfoldable pub stays : ℕ → List Action → Bool
  stays n [] = true
  stays n (left m ∷ actions) = not (m == n) && stays n actions
  stays n (published e ∷ actions) = stays n actions
  stays n (subscribed m id last ∷ actions) = stays n actions
  stays n (received m ∷ actions) = stays n actions

  -- Each event for the channel finds room in it.
  unfoldable pub keeps_up : List Action → Channel → Bool
  keeps_up [] c = true
  keeps_up (published e ∷ actions) c =
      (not (has_key (u.format e.aggregate_id) c) || ltb (length c.buffer) channel_capacity)
      && keeps_up actions (act_channel (published e) c)
  keeps_up (subscribed n id last ∷ actions) c =
      keeps_up actions (act_channel (subscribed n id last) c)
  keeps_up (received n ∷ actions) c = keeps_up actions (act_channel (received n) c)
  keeps_up (left n ∷ actions) c = keeps_up actions (act_channel (left n) c)

  act_channel-id :
      (a : Action) (n : ℕ) (c : Channel) → channel_is n (act_channel a c) ≡ channel_is n c
  unfolding act_channel offer take_one
  act_channel-id a n c = ground arith

  stays_first :
      (a : Action) (n : ℕ) (actions : List Action)
      → stays n (a ∷ actions) ≡ true
      → stays n (a ∷ []) ≡ true
  unfolding stays
  stays_first (published e) n actions s = refl
  stays_first (subscribed m id last) n actions s = refl
  stays_first (received m) n actions s = refl
  stays_first (left m) n actions s = ground arith

  stays_rest :
      (a : Action) (n : ℕ) (actions : List Action)
      → stays n (a ∷ actions) ≡ true
      → stays n actions ≡ true
  unfolding stays
  stays_rest (published e) n actions s = s
  stays_rest (subscribed m id last) n actions s = s
  stays_rest (received m) n actions s = s
  stays_rest (left m) n actions s = ground arith

  find-act :
      (a : Action) (n : ℕ) (h : Hub) (c : Channel)
      → find (channel_is n) h.channels ≡ some c
      → stays n (a ∷ []) ≡ true
      → find (channel_is n) (act u a h).channels ≡ some (act_channel a c)
  unfolding act publish subscribe receive leave act_channel offer take_one stays
  find-act (published e) n h c f s =
      find-update_where (channel_is n) (has_key (u.format e.aggregate_id)) (offer e)
        (λ x. ground arith) h.channels c f
  find-act (subscribed m id last) n h c f s = find-append (channel_is n) h.channels _ c f
  find-act (received m) n h c f s =
      find-update_where (channel_is n) (channel_is m) take_one (λ x. ground arith) h.channels c f
  find-act (left m) n h c f s =
      find-keep (channel_is n) (λ x. not (channel_is m x)) (λ x here. ground arith) h.channels c f

  -- What the hub holds of a channel is what the channel alone comes to.
  pub find_run :
      (actions : List Action) (n : ℕ) (h : Hub) (c : Channel)
      → find (channel_is n) h.channels ≡ some c
      → stays n actions ≡ true
      → find (channel_is n) (run_hub u actions h).channels ≡ some (run_channel actions c)
  unfolding run_hub run_channel
  find_run [] n h c f s = f
  find_run (a ∷ actions) n h c f s =
      find_run actions n (act u a h) (act_channel a c)
        (find-act a n h c f (stays_first a n actions s)) (stays_rest a n actions s)
