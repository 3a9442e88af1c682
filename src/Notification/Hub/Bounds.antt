-- ===== src/Notification/Hub/Bounds.antt =====
-- What a hub holds is bounded.
use cross_border_logistics.Prelude.{
  ◌≤◌, String, List, [], ◌∷◌, ◌++◌, arith, length, length-append_last, length-last_n, All,
  All-update_where, All-append_last, All-keep, not,
}
use cross_border_logistics.External.{Uuids}
use cross_border_logistics.Event.{Envelope}
use cross_border_logistics.Notification.Hub.{
  history_limit, channel_capacity, Channel, Hub, remember, offer, has_key, channel_is, publish,
  subscribe, take_one, receive, leave, Action, published, subscribed, received, left, act, run_hub,
}

abbrev pub FitsBuffer : Channel → Type 0
FitsBuffer c = length c.buffer ≤ channel_capacity

-- At most a hundred events of each order, and at most sixteen in each channel.
pub record IsBounded (h : Hub) : Type 0 where
  pub histories : (id : String) → length (h.history id) ≤ history_limit
  pub buffers : All FitsBuffer h.channels

length-remember : (e : Envelope) (items : List Envelope) → length (remember e items) ≤ history_limit
unfolding remember
length-remember e items = ground (arith, length-last_n history_limit (items ++ e ∷ []))

offer-FitsBuffer : (e : Envelope) (c : Channel) → FitsBuffer c → FitsBuffer (offer e c)
unfolding offer
offer-FitsBuffer e c h = ground (arith, length-append_last c.buffer e)

take_one-FitsBuffer : (c : Channel) → FitsBuffer c → FitsBuffer (take_one c)
unfolding take_one
take_one-FitsBuffer c h = ground arith

publish-IsBounded : (u : Uuids) (e : Envelope) (h : Hub) → IsBounded h → IsBounded (publish u e h)
unfolding publish
publish-IsBounded u e h b = record {
  histories = λ id. ground (arith, length-remember e (h.history id), b.histories id);
  buffers =
      All-update_where FitsBuffer (has_key (u.format e.aggregate_id)) (offer e) (offer-FitsBuffer e)
        h.channels b.buffers;
}

act-IsBounded : (u : Uuids) (a : Action) (h : Hub) → IsBounded h → IsBounded (act u a h)
unfolding act subscribe receive leave
act-IsBounded u (published e) h b = publish-IsBounded u e h b
act-IsBounded u (subscribed n id last) h b = record {
  histories = b.histories;
  buffers = All-append_last FitsBuffer h.channels _ b.buffers (omega arith);
}
act-IsBounded u (received n) h b = record {
  histories = b.histories;
  buffers =
      All-update_where FitsBuffer (channel_is n) take_one take_one-FitsBuffer h.channels b.buffers;
}
act-IsBounded u (left n) h b = record {
  histories = b.histories;
  buffers = All-keep FitsBuffer (λ c. not (channel_is n c)) h.channels b.buffers;
}

-- Whatever is published and however slow its clients are, a hub keeps at most a hundred events of
-- each order and at most sixteen unread events of each stream.
pub run-IsBounded :
    (u : Uuids) (actions : List Action) (h : Hub) → IsBounded h → IsBounded (run_hub u actions h)
unfolding run_hub
run-IsBounded u [] h b = b
run-IsBounded u (a ∷ actions) h b = run-IsBounded u actions (act u a h) (act-IsBounded u a h b)
