-- ===== src/Notification/Service/Consumed.antt =====
-- The consumer of the notification service over the hub: which records reach which history.
use cross_border_logistics.Prelude.{
  String, none, some, ◌&&◌, List, [], ◌∷◌, ◌≡◌, ◌∙◌, refl, arith, ap, str_eq, if◌then◌else◌, last_n,
  Option-cases, inl, inr,
}
use cross_border_logistics.External.{Uuids}
use cross_border_logistics.Event.{order_status_changed, Envelope, Codec}
use cross_border_logistics.Notification.Hub.{
  history_limit, new_hub, publish, Hub, Action, published, act, run_hub,
}
use cross_border_logistics.Notification.Hub.History.{events_of, history-last_n}
use cross_border_logistics.Notification.Service.{valid_event, consume_record, consume}

module _ (u : Uuids) (c : Codec) where
  -- Of some records, the envelopes that say that a status of this order has changed.
  unfoldable pub changes_of : String → List String → List Envelope
  changes_of id [] = []
  changes_of id (value ∷ records) =
      let rest = changes_of id records in
      elim (c.unmarshal_envelope value) [
        | none ↦ rest
        | some e ↦
            if str_eq e.event_type order_status_changed && str_eq id (u.format e.aggregate_id)
            then e ∷ rest
            else rest
      ]

  -- The records as actions on the hub.
  unfoldable actions_of : List String → List Action
  unfolding valid_event
  actions_of [] = []
  actions_of (value ∷ records) =
      let rest = actions_of records in
      elim (valid_event u c value) [ none ↦ rest | some e ↦ published e ∷ rest ]

  -- The consumer does to the hub what its valid events do, in their order.
  consume-run_hub :
      (records : List String) (h : Hub) → consume u c records h ≡ run_hub u (actions_of records) h
  unfolding consume consume_record actions_of run_hub act
  consume-run_hub [] h = refl
  consume-run_hub (value ∷ records) h = elim (Option-cases (valid_event u c value)) [
    | inl skipped ↦ ground (arith, consume-run_hub records h)
    | inr (e, valid) ↦ ground (arith, consume-run_hub records (publish u e h))
  ]

  events_of-actions_of :
      (id : String) (records : List String)
      → events_of u id (actions_of records) ≡ changes_of id records
  unfolding events_of actions_of changes_of valid_event
  events_of-actions_of id [] = refl
  events_of-actions_of id (value ∷ records) = elim (Option-cases (c.unmarshal_envelope value)) [
    | inl unreadable ↦ ground (arith, events_of-actions_of id records)
    | inr (e, read) ↦ ground (arith, events_of-actions_of id records)
  ]

  -- After any records, the history of an order is the last hundred of the changes of its status among
  -- them, in their order: a record that cannot be read, is another event or of another order leaves
  -- nothing in it and stops nothing.
  pub consume-history :
      (id : String) (records : List String)
      → (consume u c records new_hub).history id ≡ last_n history_limit (changes_of id records)
  consume-history id records =
      ap (λ (h : Hub). h.history id) (consume-run_hub records new_hub)
      ∙ history-last_n u id (actions_of records)
      ∙ ap (last_n history_limit) (events_of-actions_of id records)
