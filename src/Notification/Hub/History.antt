-- ===== src/Notification/Hub/History.antt =====
-- The history of an order is the last hundred of its events.
use cross_border_logistics.Prelude.{
  String, true, false, List, [], ◌∷◌, ◌++◌, ◌≡◌, ◌∙◌, refl, ap, arith, str_eq, if◌then◌else◌, drop,
  last_n, last_n-append_last, append_assoc, append-nil, Bool-cases, inl, inr,
}
use cross_border_logistics.External.{Uuids}
use cross_border_logistics.Event.{Envelope}
use cross_border_logistics.Notification.Hub.{
  history_limit, Hub, new_hub, remember, publish, subscribe, receive, leave, Action, published,
  subscribed, received, left, act, run_hub,
}

-- The cut is always the one to the last hundred.
remember_lem :
    (e : Envelope) (items : List Envelope)
    → remember e items ≡ last_n history_limit (items ++ e ∷ [])
unfolding remember last_n drop
remember_lem e items = ground arith

-- The events of an order that were published, in their order.
unfoldable pub events_of : Uuids → String → List Action → List Envelope
events_of u id [] = []
events_of u id (published e ∷ actions) =
    let rest = events_of u id actions in
    if str_eq id (u.format e.aggregate_id) then e ∷ rest else rest
events_of u id (subscribed n k last ∷ actions) = events_of u id actions
events_of u id (received n ∷ actions) = events_of u id actions
events_of u id (left n ∷ actions) = events_of u id actions

publish_mine :
    (u : Uuids) (id : String) (e : Envelope) (h : Hub)
    → str_eq id (u.format e.aggregate_id) ≡ true
    → (publish u e h).history id ≡ remember e (h.history id)
unfolding publish
publish_mine u id e h mine = rw mine refl

publish_other :
    (u : Uuids) (id : String) (e : Envelope) (h : Hub)
    → str_eq id (u.format e.aggregate_id) ≡ false
    → (publish u e h).history id ≡ h.history id
unfolding publish
publish_other u id e h other = rw other refl

-- A hub whose history of an order is the last hundred of some events keeps it so.
history_run :
    (u : Uuids) (id : String) (actions : List Action) (h : Hub) (past : List Envelope)
    → h.history id ≡ last_n history_limit past
    → (run_hub u actions h).history id ≡ last_n history_limit (past ++ events_of u id actions)
unfolding run_hub events_of act subscribe receive leave
history_run u id [] h past e = rw append-nil (e)
history_run u id (published e ∷ actions) h past before =
    elim (Bool-cases (str_eq id (u.format e.aggregate_id))) [
      | inl mine ↦
          (let step =
              publish_mine u id e h mine
              ∙ remember_lem e (h.history id)
              ∙ ap (λ x. last_n history_limit (x ++ e ∷ [])) before
              ∙ last_n-append_last history_limit past e in
            rw mine (
              history_run u id actions (publish u e h) (past ++ e ∷ []) step
              ∙ ap (last_n history_limit) (append_assoc past (e ∷ []) (events_of u id actions))))
      | inr other ↦
          rw other
            (history_run u id actions (publish u e h) past (publish_other u id e h other ∙ before))
    ]
history_run u id (subscribed n k last ∷ actions) h past e = history_run u id actions _ past e
history_run u id (received n ∷ actions) h past e = history_run u id actions _ past e
history_run u id (left n ∷ actions) h past e = history_run u id actions _ past e

-- The hub refines the list of all events: after any actions, in any order of its lock, the history
-- of an order is exactly the last hundred of the events that were published for it.
pub history-last_n :
    (u : Uuids) (id : String) (actions : List Action)
    → (run_hub u actions new_hub).history id ≡ last_n history_limit (events_of u id actions)
unfolding last_n drop
history-last_n u id actions = history_run u id actions new_hub [] refl
