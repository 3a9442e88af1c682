-- ===== src/Order/History/Recreated.antt =====
-- Orders that are created again, at any later time.
use cross_border_logistics.Prelude.{
  ℕ, String, some, Bool, true, false, ◌||◌, [], ◌∷◌, any-append, any-update_where, ◌≡◌, ◌∙◌, refl,
  sym, ap, inl, inr, arith, any, ok, subst,
}
use cross_border_logistics.Prelude.Steps.{Steps, Steps-keep}
use cross_border_logistics.External.{Uuid, Uuids}
use cross_border_logistics.Event.{Codec}
use cross_border_logistics.Order.Domain.{
  OrderStatus, waiting_deposit, waiting_purchase, arrived_foreign_warehouse,
  ready_for_domestic_delivery, Order,
}
use cross_border_logistics.Order.Ports.{Db}
use cross_border_logistics.Order.Repository.{Call, order_is}
use cross_border_logistics.Order.Repository.Queries.{mark_published_row, mark_failed_row}
use cross_border_logistics.Order.Service.{CreateInput, Quotations, Fresh, create_order}
use cross_border_logistics.Order.Service.Creation.{create_order_effect, create_order_answer}
use cross_border_logistics.Order.Service.Handlers.Effects.{
  Moves, deposit-Moves, remaining-Moves, package-Moves,
}
use cross_border_logistics.Order.History.{
  Step, created, deposit_event, remaining_event, package_event, published, publish_failed,
}

-- The order is there.
abbrev pub HasOrder : Uuid → Db → Type 0
HasOrder k db = any (order_is k) db.orders ≡ true

module _ (u : Uuids) (c : Codec) (k : Uuid) where
  Moves-HasOrder :
      (down : Call → Bool) (target : OrderStatus) (db db' : Db)
      → Moves u down target db db'
      → HasOrder k db
      → HasOrder k db'
  Moves-HasOrder down target db db' (inl same) h = subst (HasOrder k) (sym same) h
  Moves-HasOrder down target db db' (inr d) h =
      ap (any (order_is k)) d.applied.orders_set
      ∙ any-update_where (order_is k) (order_is d.applied.order)
          (λ r. record r { status = target; updated_at = d.at }) (λ r. refl) db.orders
      ∙ h

  mark_published_row-HasOrder :
      (failed : Bool) (id : Uuid) (at : ℕ) (db : Db)
      → HasOrder k db
      → HasOrder k (mark_published_row failed id at db).1
  unfolding mark_published_row
  mark_published_row-HasOrder true id at db h = h
  mark_published_row-HasOrder false id at db h = h

  mark_failed_row-HasOrder :
      (failed : Bool) (id : Uuid) (message : String) (db : Db)
      → HasOrder k db
      → HasOrder k (mark_failed_row failed id message db).1
  unfolding mark_failed_row
  mark_failed_row-HasOrder true id message db h = h
  mark_failed_row-HasOrder false id message db h = h

  Step-HasOrder : (db db' : Db) → Step u c db db' → HasOrder k db → HasOrder k db'
  Step-HasOrder db _ (created q down fresh now input) h =
      elim (create_order_effect u c q down fresh now input db) [
        | inl same ↦ subst (HasOrder k) (sym same) h
        | inr (p, new, s) ↦
            ap (any (order_is k)) s.orders
            ∙ any-append (order_is k) db.orders (s.row ∷ [])
            ∙ ap (λ b. b || any (order_is k) (s.row ∷ [])) h
      ]
  Step-HasOrder db _ (deposit_event down ids now e) h =
      Moves-HasOrder down waiting_purchase db _ (deposit-Moves u down c ids now e db) h
  Step-HasOrder db _ (remaining_event down ids now e) h =
      Moves-HasOrder down ready_for_domestic_delivery db _ (remaining-Moves u down c ids now e db) h
  Step-HasOrder db _ (package_event down ids now e) h =
      Moves-HasOrder down arrived_foreign_warehouse db _ (package-Moves u down c ids now e db) h
  Step-HasOrder db _ (published failed id at) h = mark_published_row-HasOrder failed id at db h
  Step-HasOrder db _ (publish_failed failed id message) h =
      mark_failed_row-HasOrder failed id message db h

-- An order that is there is stored once only: every later creation that is answered with its id,
-- after any operations of the service in between, writes nothing; and the status of its answer is
-- the first one, whatever status the stored order has by then.
pub create_repeated :
    (u : Uuids) (c : Codec) (q : Quotations) (down : Call → Bool) (fresh : Fresh) (now : ℕ)
    (input : CreateInput) (k : Uuid) (db later : Db) (order : Order) {db' : Db}
    → any (order_is k) db.orders ≡ true
    → Steps (Step u c) db later
    → create_order u c q down fresh now input later ≡ (ok order, db')
    → u.column order.id ≡ some k
    → (db' ≡ later) × (order.status ≡ waiting_deposit)
create_repeated u c q down fresh now input k db later order {db'} there steps h key =
    let kept = Steps-keep (Step u c) (HasOrder k) (Step-HasOrder u c k) db later steps there in
    let answer = create_order_answer u c q down fresh now input later order h in
    (
      elim answer.2 [
        | inl same ↦ same
        | inr s ↦ (let same : s.row.id ≡ k = cc in absurd (ground (arith, kept, s.is_new, same)))
      ],
      (answer.1).0,
    )
