-- ===== src/Notification/Hub/Replay.antt =====
-- What a client that comes back is sent first.
use cross_border_logistics.Prelude.{
  String, Bool, true, false, List, [], ◌∷◌, ◌++◌, ◌≡◌, refl, ap, arith, str_eq, any,
}
use cross_border_logistics.External.{Uuids}
use cross_border_logistics.Event.{Envelope}
use cross_border_logistics.Notification.Hub.{replay_from}

abbrev pub event_is : Uuids → String → Envelope → Bool
event_is u last e = str_eq (u.format e.event_id) last

module _ (u : Uuids) (last : String) where
  replay_all : (es : List Envelope) → replay_from u last true es ≡ es
  unfolding replay_from
  replay_all [] = refl
  replay_all (e ∷ es) = ap (λ xs. e ∷ xs) (replay_all es)

  -- A client that comes back with the id of the last event that it has seen gets exactly the events
  -- behind it, where the history still holds it.
  pub replay_resumes :
      (before after : List Envelope) (e : Envelope)
      → any (event_is u last) before ≡ false
      → event_is u last e ≡ true
      → replay_from u last false (before ++ e ∷ after) ≡ after
  unfolding replay_from any
  replay_resumes [] after e new here = ground (arith, replay_all after)
  replay_resumes (x ∷ before) after e new here = ground (arith, replay_resumes before after e)

  -- Where the history no longer holds it, the client gets nothing of the history.
  pub replay_evicted :
      (es : List Envelope) → any (event_is u last) es ≡ false → replay_from u last false es ≡ []
  unfolding replay_from any
  replay_evicted [] h = refl
  replay_evicted (e ∷ es) h = ground (arith, replay_evicted es)
