-- ===== src/Order/Service/Creation.antt =====
-- What `Create` of backend/internal/order/application/service.go leads to.
use cross_border_logistics.Prelude.{
  ℕ, Bool, ◌≡◌, ◌⊎◌, inl, inr, refl, arith, ap, subst, Result, ok, err,
}
use cross_border_logistics.External.{Uuids}
use cross_border_logistics.Event.{Codec}
use cross_border_logistics.Order.Domain.{OrderError, waiting_deposit, Order, TrackingEvent}
use cross_border_logistics.Order.Ports.{OutboxEvent, Db}
use cross_border_logistics.Order.Repository.{Call}
use cross_border_logistics.Order.Repository.Create.{create}
use cross_border_logistics.Order.Repository.Create.Stored.{Stored, create-Effect}
use cross_border_logistics.Order.Service.{
  CreateInput, Quotations, Fresh, new_order, initial_tracking, make_order_created_event, prepare,
  store, create_order,
}

module _ (u : Uuids) (c : Codec) where
  -- An order that waits for its deposit, and a tracking event and an outbox event of it.
  abbrev pub IsNew : Order × TrackingEvent × OutboxEvent → Type 0
  IsNew p =
      (p.0.status ≡ waiting_deposit)
      × (p.1.order_id ≡ p.0.id)
      × (p.1.status ≡ waiting_deposit)
      × (p.2.aggregate_id ≡ p.0.id)

  -- So is every order that is prepared.
  prepare-IsNew :
      (q : Quotations) (fresh : Fresh) (now : ℕ) (input : CreateInput) (order : Order)
      (tracking : TrackingEvent) (outbox : OutboxEvent)
      → prepare u c q fresh now input ≡ ok (order, tracking, outbox)
      → IsNew (order, tracking, outbox)
  unfolding prepare new_order initial_tracking make_order_created_event
  prepare-IsNew q fresh now input order tracking outbox h =
      (ground arith, ground arith, ground arith, ground arith)

  store_effect :
      (down : Call → Bool) (r : Result OrderError (Order × TrackingEvent × OutboxEvent)) (db : Db)
      → ((store u c down r db).1 ≡ db)
        ⊎ ((p : Order × TrackingEvent × OutboxEvent) × (r ≡ ok p)
            × Stored u down p.0 p.1 p.2 db (store u c down r db).1)
  unfolding store
  store_effect down (err e) db = inl refl
  store_effect down (ok (order, tracking, outbox)) db =
      elim (create-Effect u down order tracking outbox db) [
        | inl same ↦ inl same
        | inr stored ↦ inr ((order, tracking, outbox), refl, stored)
      ]

  -- A creation leaves the tables alone, or stores an order that waits for its deposit.
  pub create_order_effect :
      (q : Quotations) (down : Call → Bool) (fresh : Fresh) (now : ℕ) (input : CreateInput)
      (db : Db)
      → let db' = (create_order u c q down fresh now input db).1 in
        (db' ≡ db)
        ⊎ ((p : Order × TrackingEvent × OutboxEvent) × IsNew p × Stored u down p.0 p.1 p.2 db db')
  unfolding create_order
  create_order_effect q down fresh now input db =
      elim (store_effect down (prepare u c q fresh now input) db) [
        | inl same ↦ inl same
        | inr (p, made, stored) ↦ inr (p, prepare-IsNew q fresh now input p.0 p.1 p.2 made, stored)
      ]

  store_answer :
      (down : Call → Bool) (r : Result OrderError (Order × TrackingEvent × OutboxEvent)) (db : Db)
      (order : Order) {db' : Db}
      → store u c down r db ≡ (ok order, db')
      → (p : TrackingEvent × OutboxEvent) × (r ≡ ok (order, p.0, p.1))
        × ((db' ≡ db) ⊎ Stored u down order p.0 p.1 db db')
  unfolding store
  store_answer down (err e) db order h = absurd (ground arith)
  store_answer down (ok (o, tracking, outbox)) db order {db'} h =
      let same : o ≡ order = ground arith in
      let tables : (create u down o tracking outbox db).1 ≡ db' = ap (λ r. r.1) h in
      (
        (tracking, outbox),
        ap (λ x. ok (x, tracking, outbox)) same,
        subst (λ (x : Order × Db). (x.1 ≡ db) ⊎ Stored u down x.0 tracking outbox db x.1)
            (λ i. (same i, tables i)) (create-Effect u down o tracking outbox db),
      )

  -- What is answered is new, and is what was stored if anything was.
  pub create_order_answer :
      (q : Quotations) (down : Call → Bool) (fresh : Fresh) (now : ℕ) (input : CreateInput)
      (db : Db) (order : Order) {db' : Db}
      → create_order u c q down fresh now input db ≡ (ok order, db')
      → (p : TrackingEvent × OutboxEvent) × IsNew (order, p.0, p.1)
        × ((db' ≡ db) ⊎ Stored u down order p.0 p.1 db db')
  unfolding create_order
  create_order_answer q down fresh now input db order h =
      let a = store_answer down (prepare u c q fresh now input) db order h in
      (a.0, prepare-IsNew q fresh now input order a.0.0 a.0.1 (a.1), (a.2))
