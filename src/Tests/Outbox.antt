-- ===== src/Tests/Outbox.antt =====
-- The outbox worker on concrete inputs.
use cross_border_logistics.Prelude.{false, none, some, [], ◌∷◌, ◌++◌, ◌≡◌, inl, refl}
use cross_border_logistics.Outbox.Table.{OutboxRow, select_unpublished}
use cross_border_logistics.Outbox.Worker.{State, Round, poll, run_worker}
use cross_border_logistics.Outbox.Worker.Delivery.{AllSent, run-AllSent, poll_delivers}

abbrev row : OutboxRow
row = record {
  id = b'e';
  aggregate_id = b'o';
  event_type = "order.created.v1";
  payload = "{}";
  created_at = 2;
  published_at = none;
  attempts = 0;
  last_error = none;
}

abbrev older : OutboxRow
older = record row { id = b'd'; created_at = 1 }

abbrev queue : State
queue = record { rows = row ∷ older ∷ []; log = [] }

abbrev broker_up : Round
broker_up = record {
  fetch_fails = false;
  publish_error = λ m. none;
  cancelled = λ m. false;
  mark_fails = λ m. false;
  now = 9;
}

abbrev broker_down : Round
broker_down = record broker_up { publish_error = λ m. some "no broker" }

run-AllSent_example : AllSent (run_worker (broker_down ∷ broker_up ∷ []) queue)
run-AllSent_example = run-AllSent (broker_down ∷ broker_up ∷ []) queue (inl refl, (inl refl, tt))

poll_delivers_example : (poll broker_up queue).log ≡ [] ++ select_unpublished 20 queue.rows
poll_delivers_example = poll_delivers broker_up queue refl (λ m. refl)
