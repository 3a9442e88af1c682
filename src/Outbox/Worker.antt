-- ===== src/Outbox/Worker.antt =====
-- backend/pkg/kafka/outbox.go: the worker, over the statements of Outbox.Table, by which the
-- repositories implement `OutboxStore`. Logging is left out.
pub mod Delivery
use cross_border_logistics.Prelude.{
  ℕ, String, Bool, true, false, Option, none, some, List, [], ◌∷◌, ◌++◌, if◌then◌else◌,
}
use cross_border_logistics.Outbox.Table.{OutboxRow, select_unpublished, set_published, set_failed}

-- The table, and the messages that the broker has acknowledged, in their order.
pub record State : Type 0 where
  pub rows : List OutboxRow
  pub log : List OutboxRow

-- What one poll meets: which calls of the store fail, the publisher's error for a message, whether
-- the context is cancelled when a message fails, and the time.
pub record Round : Type 0 where
  pub fetch_fails : Bool
  pub publish_error : OutboxRow → Option String
  pub cancelled : OutboxRow → Bool
  pub mark_fails : OutboxRow → Bool
  pub now : ℕ

-- A message that was acknowledged.
unfoldable pub acknowledged : Round → OutboxRow → State → State
acknowledged r item s = record {
  rows = if r.mark_fails item then s.rows else set_published item.id r.now s.rows;
  log = s.log ++ item ∷ [];
}

-- A message that was not.
unfoldable pub not_acknowledged : Round → OutboxRow → String → State → State
not_acknowledged r item message s = record s {
  rows = if r.mark_fails item then s.rows else set_failed item.id message s.rows;
}

-- The loop over the messages that were fetched.
unfoldable pub publish_all : List OutboxRow → Round → State → State
publish_all [] r s = s
publish_all (item ∷ items) r s = elim (r.publish_error item) [
  | none ↦ publish_all items r (acknowledged r item s)
  | some message ↦ elim (r.cancelled item) [
    | true ↦ s
    | false ↦ publish_all items r (not_acknowledged r item message s)
  ]
]

-- `poll`
unfoldable pub poll : Round → State → State
poll r s = if r.fetch_fails then s else publish_all (select_unpublished 20 s.rows) r s

-- `Run`: the polls until the context is cancelled.
unfoldable pub run_worker : List Round → State → State
run_worker [] s = s
run_worker (r ∷ rounds) s = run_worker rounds (poll r s)
