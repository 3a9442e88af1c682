-- ===== src/Order/Consumer.antt =====
-- backend/internal/order/adapters/kafka: the consumers of payment and of warehouse events.
-- The rounds of a loop are the attempts that it makes before its context is cancelled; each has the
-- database calls that fail, the fresh ids and the time of that attempt.
pub mod Retry
use cross_border_logistics.Prelude.{
  ℕ, String, Bool, true, false, Option, none, some, List, [], ◌∷◌, str_eq, if◌then◌else◌, Result,
  ok, err,
}
use cross_border_logistics.External.{Uuids}
use cross_border_logistics.Event.{
  payment_deposit_succeeded, payment_remaining_balance_succeeded, Envelope, Codec,
}
use cross_border_logistics.Order.Domain.{OrderError, invalid_input}
use cross_border_logistics.Order.Ports.{Db}
use cross_border_logistics.Order.Repository.{Call}
use cross_border_logistics.Order.Service.Handlers.{
  EventIds, handle_payment_deposit_succeeded, handle_payment_remaining_balance_succeeded,
  handle_package_received,
}

pub record Round : Type 0 where
  pub down : Call → Bool
  pub ids : EventIds
  pub now : ℕ

-- Whether the error is `domain.ErrInvalidInput`.
abbrev pub is_invalid_input : OrderError → Bool
is_invalid_input invalid_input = true
is_invalid_input _ = false

-- A handler of one attempt.
abbrev pub Handle : Type 0
Handle = Round → Db → Result OrderError Bool × Db

-- The loop of `Consumer.processUntilSuccess` with the handler that the event type chose.
retry : Handle → List Round → Db → Bool × Db
retry handle [] db = (false, db)
retry handle (r ∷ rest) db =
    let (result, db') = handle r db in
    elim result [ ok changed ↦ (true, db') | err e ↦ retry handle rest db' ]

-- The loop of `WarehouseConsumer.process`, which gives up on invalid input.
retry_valid : Handle → List Round → Db → Bool × Db
retry_valid handle [] db = (false, db)
retry_valid handle (r ∷ rest) db =
    let (result, db') = handle r db in
    elim result [
      | ok changed ↦ (true, db')
      | err e ↦ elim (is_invalid_input e) [
        | true ↦ (true, db')
        | false ↦ retry_valid handle rest db'
      ]
    ]

module _ (u : Uuids) (c : Codec) where
  abbrev pub deposit_handle : Envelope → Handle
  deposit_handle e r = handle_payment_deposit_succeeded u c r.down r.ids r.now e

  abbrev pub remaining_handle : Envelope → Handle
  remaining_handle e r = handle_payment_remaining_balance_succeeded u c r.down r.ids r.now e

  abbrev pub package_handle : Envelope → Handle
  package_handle e r = handle_package_received u c r.down r.ids r.now e

  -- The `switch` on the event type; a type of no case is passed over.
  dispatch : Envelope → List Round → Db → Bool × Db
  unfolding retry
  dispatch e rounds db =
      if str_eq e.event_type payment_deposit_succeeded
      then retry (deposit_handle e) rounds db
      else if str_eq e.event_type payment_remaining_balance_succeeded
      then retry (remaining_handle e) rounds db
      else (true, db)

  attempt : List Round → Option Envelope → Db → Bool × Db
  unfolding dispatch
  attempt [] envelope db = (false, db)
  attempt (r ∷ rest) none db = (true, db)
  attempt (r ∷ rest) (some e) db = dispatch e (r ∷ rest) db

  -- `Consumer.processUntilSuccess`: whether to commit the record, and the tables after it.
  unfoldable pub process_until_success : String → List Round → Db → Bool × Db
  unfolding attempt
  process_until_success record' rounds = attempt rounds (c.unmarshal_envelope record')

  attempt_package : Option Envelope → List Round → Db → Bool × Db
  unfolding retry_valid
  attempt_package none rounds db = (true, db)
  attempt_package (some e) rounds db = retry_valid (package_handle e) rounds db

  -- `WarehouseConsumer.process`
  unfoldable pub process_package : String → List Round → Db → Bool × Db
  unfolding attempt_package
  process_package record' = attempt_package (c.unmarshal_envelope record')

-- The loop of `Run` over the records that are polled, each with its rounds: a record is committed
-- when it is done with, and the loop ends at the first that is not. The records that were committed.
unfoldable pub run :
    (String → List Round → Db → Bool × Db) → List (String × List Round) → Db → List String × Db
run process [] db = ([], db)
run process ((record', rounds) ∷ rest) db =
    let (done, db') = process record' rounds db in
    let later = run process rest db' in if done then (record' ∷ later.0, later.1) else ([], db')
