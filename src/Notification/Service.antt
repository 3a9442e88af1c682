-- ===== src/Notification/Service.antt =====
-- The rest of backend/cmd/notification-service/main.go: the consumer and the streams' requests.
pub mod Consumed
pub mod Spelling
use cross_border_logistics.Prelude.{
  ℕ, String, Bool, ◌&&◌, Option, none, some, List, [], ◌∷◌, ◌≡◌, refl, arith, str_eq, if◌then◌else◌,
  not, Result, ok, err, Bool-cases, inl, inr, or_error, Option-cases,
}
use cross_border_logistics.Prelude.Checks.{◌>>=◌, ◌>>◌, fail_if}
use cross_border_logistics.Go.{trim_space}
use cross_border_logistics.External.{Uuids}
use cross_border_logistics.Event.{order_status_changed, Envelope, Codec}
use cross_border_logistics.Http.{Response, failure, validation_error}
use cross_border_logistics.Notification.Hub.{
  Hub, publish, subscribe, Action, published, act, run_hub,
}

module _ (u : Uuids) (c : Codec) where
  -- The event of a record, if it is a change of a status.
  unfoldable pub valid_event : String → Option Envelope
  valid_event record_value = elim (c.unmarshal_envelope record_value) [
    | none ↦ none
    | some e ↦ if str_eq e.event_type order_status_changed then some e else none
  ]

  -- One record; it is committed whatever it holds.
  unfoldable pub consume_record : String → Hub → Hub
  unfolding valid_event
  consume_record value h = elim (valid_event value) [ none ↦ h | some e ↦ publish u e h ]

  -- `consume`, over the records that are polled, in their order
  unfoldable pub consume : List String → Hub → Hub
  unfolding consume_record
  consume [] h = h
  consume (value ∷ records) h = consume records (consume_record value h)

-- `stream`, up to its subscription: the key of the channel, or the answer. The id is checked as a
-- UUID, and used as the text that it is.
unfoldable pub stream_key : Uuids → Bool → String → Result (Response (Unit {0})) String
stream_key u flushes order_id = do
  let id = trim_space order_id
  parsed ← or_error (u.parse id) (failure 400 validation_error "order ID is invalid")
  fail_if (not flushes) (failure 500 "STREAM_UNAVAILABLE" "streaming is unavailable")
  ok id

-- A request for a stream that is accepted subscribes a new channel.
unfoldable pub open_stream :
    Uuids → Bool → ℕ → String → String → Hub → Result (Response (Unit {0})) Hub
unfolding stream_key
open_stream u flushes n order_id last h = do
  id ← stream_key u flushes order_id
  ok (subscribe u n id last h)
