-- ===== src/Tests/Notification.antt =====
-- The hub of the notification service on concrete inputs.
use cross_border_logistics.Prelude.{
  ℕ, Bool, true, false, ◌==◌, if◌then◌else◌, ◌≡◌, ◌++◌, refl, arith, some, List, [], ◌∷◌, String,
  find, any, update_where,
}
use cross_border_logistics.Event.{order_status_changed, Envelope}
use cross_border_logistics.Tests.World.{letters, codec, deposit_envelope, status_envelope}
use cross_border_logistics.Notification.Hub.{
  new_hub, Channel, channel_is, Action, published, received, run_hub, act, publish, subscribe,
  replay_from,
}
use cross_border_logistics.Notification.Hub.History.{events_of, history-last_n}
use cross_border_logistics.Notification.Hub.Bounds.{IsBounded, run-IsBounded}
use cross_border_logistics.Notification.Hub.Streams.{stays, keeps_up, act_channel}
use cross_border_logistics.Notification.Hub.Replay.{replay_resumes, replay_evicted}
use cross_border_logistics.Notification.Hub.Delivery.{stream_complete}
use cross_border_logistics.Notification.Service.{consume}
use cross_border_logistics.Notification.Service.Consumed.{changes_of, consume-history}
use cross_border_logistics.Notification.Service.Spelling.{other_spelling_silent}
use cross_border_logistics.Prelude.{last_n, str_eq}

abbrev shipped : Envelope
shipped = record deposit_envelope { event_type = order_status_changed; payload = "shipped" }

abbrev delivered : Envelope
delivered = record shipped { event_id = b't'; payload = "delivered" }

abbrev before : List Action
before = published shipped ∷ []

abbrev after : List Action
after = published delivered ∷ received 7 ∷ []

history-last_n_example :
    (run_hub letters before new_hub).history "o" ≡ last_n 100 (events_of letters "o" before)
history-last_n_example = history-last_n letters "o" before

empty-IsBounded : IsBounded new_hub
empty-IsBounded = record { histories = λ id. ground arith; buffers = tt }

run-IsBounded_example : IsBounded (run_hub letters (before ++ after) new_hub)
run-IsBounded_example = run-IsBounded letters (before ++ after) new_hub empty-IsBounded

replay_resumes_example : replay_from letters "e" false (shipped ∷ delivered ∷ []) ≡ delivered ∷ []
unfolding letters any
replay_resumes_example = replay_resumes letters "e" [] (delivered ∷ []) shipped refl refl

replay_evicted_example : replay_from letters "q" false (shipped ∷ delivered ∷ []) ≡ []
unfolding letters any
replay_evicted_example = replay_evicted letters "q" (shipped ∷ delivered ∷ []) refl

stream_complete_example :
    (c : Channel) × (find
        (channel_is 7)
        (run_hub letters after
          (subscribe letters 7 "o" "" (run_hub letters before new_hub))).channels
      ≡ some c)
    × (c.sent ++ c.buffer
        ≡ replay_from letters "" (str_eq "" "") ((run_hub letters before new_hub).history "o")
          ++ events_of letters "o" after)
unfolding letters stays keeps_up act_channel run_hub act publish update_where find
stream_complete_example =
    stream_complete letters 7 "o" "" (run_hub letters before new_hub) after refl refl refl

-- Of the records, only the second changes a status.
consume-history_example :
    (consume letters codec ("poison package" ∷ "status event" ∷ "unreadable" ∷ []) new_hub).history
      "o"
    ≡ last_n 100
        (changes_of letters codec "o" ("poison package" ∷ "status event" ∷ "unreadable" ∷ []))
consume-history_example =
    consume-history letters codec "o" ("poison package" ∷ "status event" ∷ "unreadable" ∷ [])

changes_run :
    changes_of letters codec "o" ("poison package" ∷ "status event" ∷ "unreadable" ∷ [])
    ≡ status_envelope ∷ []
unfolding changes_of codec letters
changes_run = refl

unlike_either :
    (t : Bool) (a b : String)
    → str_eq "O" a ≡ false
    → str_eq "O" b ≡ false
    → str_eq "O" (if t then a else b) ≡ false
unlike_either true a b p q = p
unlike_either false a b p q = q

never_printed : (k : ℕ) → str_eq "O" (letters.format k) ≡ false
unfolding letters
never_printed k = unlike_either (k == b'o') _ _ refl (
    unlike_either (k == b'q') _ _ refl (
      unlike_either (k == b'p') _ _ refl
        (unlike_either (k == b'e') _ _ refl (unlike_either (k == b't') _ _ refl refl))))

other_spelling_silent_example :
    (c : Channel) × (find
        (channel_is 7)
        (run_hub letters after
          (subscribe letters 7 "O" "" (run_hub letters before new_hub))).channels
      ≡ some c)
    × (c.sent ++ c.buffer ≡ [])
unfolding letters stays run_hub act publish update_where find
other_spelling_silent_example =
    other_spelling_silent letters "O" never_printed 7 "" before after refl refl
