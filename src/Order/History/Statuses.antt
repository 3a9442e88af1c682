-- ===== src/Order/History/Statuses.antt =====
-- The statuses that orders reach.
use cross_border_logistics.Prelude.{
  ℕ, Bool, true, ◌≡◌, ◌≢◌, ◌⊎◌, ◌∙◌, refl, sym, subst, inl, inr, arith, All, All-append_last,
  All-update_where, find-All,
}
use cross_border_logistics.External.{Uuids}
use cross_border_logistics.Event.{Envelope, Codec}
use cross_border_logistics.Order.Domain.{
  OrderStatus, waiting_deposit, waiting_purchase, arrived_foreign_warehouse,
  ready_for_domestic_delivery, can_transition,
}
use cross_border_logistics.Order.Ports.{OrderRow, Db}
use cross_border_logistics.Order.Repository.{Call, order_is}
use cross_border_logistics.Order.Repository.Queries.{mark_published_row, mark_failed_row}
use cross_border_logistics.Order.Service.{CreateInput, Quotations, Fresh, create_order}
use cross_border_logistics.Order.Service.Creation.{create_order_effect}
use cross_border_logistics.Order.Service.Handlers.{
  EventIds, handle_payment_remaining_balance_succeeded,
}
use cross_border_logistics.Order.Service.Handlers.Effects.{
  Moves, deposit-Moves, remaining-Moves, package-Moves,
}
use cross_border_logistics.Order.History.{
  Step, created, deposit_event, remaining_event, package_event, published, publish_failed,
  Reachable, Reachable_induction,
}

-- The statuses that the operations of the service give.
abbrev pub IsEarly : OrderRow → Type 0
IsEarly row =
    (row.status ≡ waiting_deposit)
    ⊎ (row.status ≡ waiting_purchase)
    ⊎ (row.status ≡ arrived_foreign_warehouse)

abbrev pub AllEarly : Db → Type 0
AllEarly db = All IsEarly db.orders

module _ (u : Uuids) (down : Call → Bool) where
  -- An order moved to an early status leaves all orders early.
  Moves-AllEarly :
      (target : OrderStatus) (db db' : Db)
      → ((row : OrderRow) (at : ℕ) → IsEarly (record row { status = target; updated_at = at }))
      → Moves u down target db db'
      → AllEarly db
      → AllEarly db'
  Moves-AllEarly target db db' early (inl same) h = subst AllEarly (sym same) h
  Moves-AllEarly target db db' early (inr d) h =
      subst (All IsEarly) (sym d.applied.orders_set)
        (All-update_where IsEarly _ _ (λ row p. early row d.at) db.orders h)

  -- From an early status there is no way to ready_for_domestic_delivery.
  not_ready :
      (row : OrderRow) → IsEarly row → can_transition row.status ready_for_domestic_delivery ≢ true
  unfolding can_transition
  not_ready row h e = ground arith

  -- So no event for the remaining balance is applied.
  remaining_ignored :
      (db db' : Db) → Moves u down ready_for_domestic_delivery db db' → AllEarly db → db' ≡ db
  remaining_ignored db db' (inl same) h = same
  remaining_ignored db db' (inr d) h =
      let a = d.applied in
      absurd
        (not_ready a.row (find-All IsEarly (order_is a.order) db.orders a.row h a.found) a.legal)

module _ (u : Uuids) (c : Codec) where
  created-AllEarly :
      (q : Quotations) (down : Call → Bool) (fresh : Fresh) (now : ℕ) (input : CreateInput)
      (db : Db)
      → AllEarly db
      → AllEarly (create_order u c q down fresh now input db).1
  created-AllEarly q down fresh now input db h =
      elim (create_order_effect u c q down fresh now input db) [
        | inl same ↦ subst AllEarly (sym same) h
        | inr (p, waiting, stored) ↦ subst (All IsEarly) (sym stored.orders) (
            All-append_last IsEarly db.orders stored.row h (inl (stored.is_row.status ∙ waiting.0)))
      ]

  Step-AllEarly : (db db' : Db) → Step u c db db' → AllEarly db → AllEarly db'
  Step-AllEarly db _ (created q down fresh now input) h =
      created-AllEarly q down fresh now input db h
  Step-AllEarly db db' (deposit_event down ids now e) h =
      Moves-AllEarly u down waiting_purchase db _ (λ row at. inr (inl refl))
        (deposit-Moves u down c ids now e db) h
  Step-AllEarly db db' (remaining_event down ids now e) h =
      subst AllEarly (sym (remaining_ignored u down db _ (remaining-Moves u down c ids now e db) h))
        h
  Step-AllEarly db db' (package_event down ids now e) h =
      Moves-AllEarly u down arrived_foreign_warehouse db _ (λ row at. inr (inr refl))
        (package-Moves u down c ids now e db) h
  Step-AllEarly db db' (published failed id at) h = unfold mark_published_row in ground arith
  Step-AllEarly db db' (publish_failed failed id message) h = unfold mark_failed_row in ground arith

  -- In every reachable table each order has one of the statuses WAITING_DEPOSIT, WAITING_PURCHASE and
  -- ARRIVED_FOREIGN_WAREHOUSE: the service never moves an order further.
  pub Reachable-AllEarly : (db : Db) → Reachable u c db → AllEarly db
  Reachable-AllEarly = Reachable_induction u c AllEarly tt Step-AllEarly

  -- In no reachable table is an event for the remaining balance ever applied: whatever the event, and
  -- whichever calls of the database fail, the tables stay as they are.
  pub remaining_never_applied :
      (db : Db) (down : Call → Bool) (ids : EventIds) (now : ℕ) (e : Envelope)
      → Reachable u c db
      → (handle_payment_remaining_balance_succeeded u c down ids now e db).1 ≡ db
  remaining_never_applied db down ids now e r =
      remaining_ignored u down db _ (remaining-Moves u down c ids now e db)
        (Reachable-AllEarly db r)
