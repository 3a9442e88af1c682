-- ===== src/Notification/Hub.antt =====
-- `hub` of backend/cmd/notification-service/main.go, with the streams that read its channels. The
-- mutex makes each operation one step. A channel is a queue of at most 16 events; `sent` is what
-- its stream has written to the client, the replay first.
pub mod History
pub mod Streams
pub mod Replay
pub mod Delivery
pub mod Bounds
use cross_border_logistics.Prelude.{
  ℕ, String, Bool, true, false, not, ◌&&◌, List, [], ◌∷◌, ◌++◌, str_eq, ltb, ◌==◌, if◌then◌else◌,
  length, last_n, update_where, keep,
}
use cross_border_logistics.External.{Uuid, Uuids}
use cross_border_logistics.Event.{Envelope}

abbrev pub history_limit : ℕ
history_limit = 100

abbrev pub channel_capacity : ℕ
channel_capacity = 16

pub record Channel : Type 0 where
  pub id : ℕ
  pub key : String
  pub buffer : List Envelope
  pub sent : List Envelope

pub record Hub : Type 0 where
  pub history : String → List Envelope
  pub channels : List Channel

-- `newHub`
abbrev pub new_hub : Hub
new_hub = record { history = λ id. []; channels = [] }

-- `append`, and the cut to the last hundred
unfoldable pub remember : Envelope → List Envelope → List Envelope
remember e items =
    let items = items ++ e ∷ [] in
    if ltb history_limit (length items) then last_n history_limit items else items

-- The sending of an event that gives up where the channel is full
unfoldable pub offer : Envelope → Channel → Channel
offer e c =
    if ltb (length c.buffer) channel_capacity then record c { buffer = c.buffer ++ e ∷ [] } else c

abbrev pub has_key : String → Channel → Bool
has_key id c = str_eq c.key id

abbrev pub channel_is : ℕ → Channel → Bool
channel_is n c = c.id == n

module _ (u : Uuids) where
  -- `publish`
  unfoldable pub publish : Envelope → Hub → Hub
  publish e h =
      let id = u.format e.aggregate_id in
      record {
        history = λ k. if str_eq k id then remember e (h.history k) else h.history k;
        channels = update_where (has_key id) (offer e) h.channels;
      }

  -- The loop over the history, with `seen`.
  unfoldable pub replay_from : String → Bool → List Envelope → List Envelope
  replay_from last seen [] = []
  replay_from last true (e ∷ es) = e ∷ replay_from last true es
  replay_from last false (e ∷ es) = replay_from last (str_eq (u.format e.event_id) last) es

  -- `subscribe`, with a new channel, and its stream, which writes the replay
  unfoldable pub subscribe : ℕ → String → String → Hub → Hub
  subscribe n id last h = record h {
    channels =
        h.channels
        ++ record {
          id = n;
          key = id;
          buffer = [];
          sent = replay_from last (str_eq last "") (h.history id);
        }
          ∷ [];
  }

-- One event from the channel to the client
unfoldable pub take_one : Channel → Channel
take_one c = elim c.buffer [
  | [] ↦ c
  | e ∷ rest ↦ record c { buffer = rest; sent = c.sent ++ e ∷ [] }
]

unfoldable pub receive : ℕ → Hub → Hub
receive n h = record h { channels = update_where (channel_is n) take_one h.channels }

-- The function that `subscribe` returns, at the end of the stream
unfoldable pub leave : ℕ → Hub → Hub
leave n h = record h { channels = keep (λ c. not (channel_is n c)) h.channels }

-- What happens to a hub, in the order of its lock.
pub data Action : Type 0 where
  published : Envelope → Action
  subscribed : ℕ → String → String → Action
  received : ℕ → Action
  left : ℕ → Action

unfoldable pub act : Uuids → Action → Hub → Hub
act u (published e) h = publish u e h
act u (subscribed n id last) h = subscribe u n id last h
act u (received n) h = receive n h
act u (left n) h = leave n h

unfoldable pub run_hub : Uuids → List Action → Hub → Hub
run_hub u [] h = h
run_hub u (a ∷ actions) h = run_hub u actions (act u a h)
