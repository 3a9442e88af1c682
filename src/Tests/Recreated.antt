-- ===== src/Tests/Recreated.antt =====
-- An order that is asked for again after its deposit.
use cross_border_logistics.Prelude.{true, ◌≡◌, refl, ok, any, find, update_where, Result}
use cross_border_logistics.Prelude.Steps.{here, then_step}
use cross_border_logistics.Order.Domain.{waiting_deposit, OrderError, Order, can_transition}
use cross_border_logistics.Order.Ports.{Db}
use cross_border_logistics.Order.Repository.{up, process_payment_succeeded, process_status_event}
use cross_border_logistics.Order.Repository.Create.{create}
use cross_border_logistics.Order.Service.{
  Fresh, new_order, create_order, is_eligible, order_id_of, confirmed, make_order_created_event,
}
use cross_border_logistics.Order.Service.Handlers.{
  EventIds, handle_payment_deposit_succeeded, is_valid_payment,
}
use cross_border_logistics.Event.{new}
use cross_border_logistics.Go.{trim_space}
use cross_border_logistics.Order.History.{deposit_event}
use cross_border_logistics.Order.History.Recreated.{create_repeated}
use cross_border_logistics.Tests.World.{letters, codec, deposit_envelope}
use cross_border_logistics.Tests.Order.{waiting_db, quotation, quotations, input}

abbrev ids : EventIds
ids = record { status_event = b'x'; tracking = b't' }

abbrev moved : Db
moved = (handle_payment_deposit_succeeded letters codec up ids 5 deposit_envelope waiting_db).1

moved_on :
    (handle_payment_deposit_succeeded letters codec up ids 5 deposit_envelope waiting_db).0
    ≡ ok true
unfolding handle_payment_deposit_succeeded process_payment_succeeded process_status_event
    is_valid_payment letters codec any find update_where can_transition new
moved_on = refl

abbrev again : Fresh
again = record { item = b'a'; tracking = b'b'; event = b'c' }

abbrev repeated : Result OrderError Order × Db
repeated = create_order letters codec quotations up again 9 input moved

abbrev answer : Order
answer = new_order letters codec "o" "customer" "address" quotation b'a' 9

repeated_ok : repeated ≡ (ok answer, repeated.1)
unfolding create_order create is_eligible order_id_of confirmed make_order_created_event
    handle_payment_deposit_succeeded process_payment_succeeded process_status_event is_valid_payment
    letters codec any find update_where can_transition new new_order trim_space
repeated_ok = refl

create_repeated_example : (repeated.1 ≡ moved) × (answer.status ≡ waiting_deposit)
unfolding letters any new_order
create_repeated_example =
    create_repeated letters codec quotations up again 9 input b'o' waiting_db moved answer refl
      (then_step here (deposit_event up ids 5 deposit_envelope)) repeated_ok refl
