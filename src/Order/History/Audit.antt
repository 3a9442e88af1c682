-- ===== src/Order/History/Audit.antt =====
-- The audit trail: tracking events, outbox rows and processed events against the orders.
use cross_border_logistics.Prelude.{
  ℕ, ◌+◌, ◌==◌, ◌++◌, [], ◌∷◌, All, count_if, count_if-append, count_if-update_where, some, String,
  Bool, true, false, ◌≡◌, ◌∙◌, refl, sym, subst, ap, inl, inr, arith, List, length,
  length-append_last, length-update_where,
}
use cross_border_logistics.External.{Uuid, Uuids}
use cross_border_logistics.Event.{Codec}
use cross_border_logistics.Outbox.Table.{
  OutboxRow, unpublished_with, set_published, set_failed, length-set_published, length-set_failed,
}
use cross_border_logistics.Order.Domain.{
  OrderStatus, waiting_purchase, arrived_foreign_warehouse, ready_for_domestic_delivery,
}
use cross_border_logistics.Order.Ports.{OrderRow, TrackingRow, ProcessedRow, Db}
use cross_border_logistics.Order.Repository.{Call}
use cross_border_logistics.Order.Repository.Queries.{mark_published_row, mark_failed_row}
use cross_border_logistics.Order.Service.Creation.{create_order_effect}
use cross_border_logistics.Order.Service.Handlers.Effects.{
  Delivered, Moves, deposit-Moves, remaining-Moves, package-Moves,
}
use cross_border_logistics.Order.Repository.Events.{tracking_row, outbox_row}
use cross_border_logistics.Order.History.Timeline.{IsTold, moved-AllTold, created-AllTold}
use cross_border_logistics.Order.History.{
  Step, created, deposit_event, remaining_event, package_event, published, publish_failed,
  Reachable, Reachable_induction,
}

abbrev pub tracking_of : Uuid → TrackingRow → Bool
tracking_of k row = row.order_id == k

abbrev pub outbox_of : Uuid → OutboxRow → Bool
outbox_of k row = row.aggregate_id == k

-- Every order has the status of its newest tracking event, the outbox has a row for each tracking
-- event of an order, and both tables have one for each order and each processed event.
pub record IsAudited (db : Db) : Type 0 where
  pub told : All (IsTold db.tracking_events) db.orders
  pub announced :
      (order : Uuid)
      → count_if (outbox_of order) db.outbox_events
        ≡ count_if (tracking_of order) db.tracking_events
  pub tracked : length db.tracking_events ≡ length db.orders + length db.processed_events
  pub queued : length db.outbox_events ≡ length db.orders + length db.processed_events

-- A tracking event and an outbox row for the same order, behind the others.
announced-append :
    (db : Db) (t : TrackingRow) (e : OutboxRow) (k : Uuid)
    → e.aggregate_id ≡ t.order_id
    → count_if (outbox_of k) db.outbox_events ≡ count_if (tracking_of k) db.tracking_events
    → count_if (outbox_of k) (db.outbox_events ++ e ∷ [])
      ≡ count_if (tracking_of k) (db.tracking_events ++ t ∷ [])
unfolding count_if
announced-append db t e k same h =
    count_if-append (outbox_of k) db.outbox_events (e ∷ [])
    ∙ ground (arith, same, h)
    ∙ sym (count_if-append (tracking_of k) db.tracking_events (t ∷ []))

-- Equal texts are read as equal keys.
same_key :
    (u : Uuids) (a b : String) (j k : Uuid)
    → u.column a ≡ some j
    → a ≡ b
    → u.column b ≡ some k
    → j ≡ k
same_key u a b j k x same y = cc

module _ (u : Uuids) (down : Call → Bool) where
  Delivered-IsAudited :
      (target : OrderStatus) (db db' : Db)
      → Delivered u down target db db'
      → IsAudited db
      → IsAudited db'
  Delivered-IsAudited target db db' d h =
      let a = d.applied in
      let orders =
        ap (λ (l : List OrderRow). length l) a.orders_set ∙ length-update_where _ _ db.orders in
      let tracks =
        ap (λ (l : List TrackingRow). length l) a.tracked
        ∙ length-append_last db.tracking_events _ in
      let queue =
        ap (λ (l : List OutboxRow). length l) a.queued ∙ length-append_last db.outbox_events _ in
      let records =
        ap (λ (l : List ProcessedRow). length l) a.recorded
        ∙ length-append_last db.processed_events _ in
      let m = d.is_move in
      let row = tracking_row a.tracking_id a.tracking_order d.tracking in
      let same : a.tracking_order ≡ a.order =
        same_key u _ _ _ _ a.tracking_order_key m.of_order a.order_key in
      let queued_order : a.aggregate ≡ a.order =
        same_key u _ _ _ _ a.aggregate_key m.of_aggregate a.order_key in
      record {
        told =
            subst (λ (x : List OrderRow × List TrackingRow). All (IsTold x.1) x.0)
              (λ i. (sym a.orders_set i, sym a.tracked i))
              (moved-AllTold db.tracking_events row a.order _ same (λ r. (refl, m.to_target))
                db.orders h.told);
        announced = λ k.
            ap (count_if (outbox_of k)) a.queued
            ∙ announced-append db row (outbox_row a.outbox_id a.aggregate d.outbox) k
                (queued_order ∙ sym same) (h.announced k)
            ∙ ap (count_if (tracking_of k)) (sym a.tracked);
        tracked = omega (arith, h.tracked, orders, tracks, records);
        queued = omega (arith, h.queued, orders, queue, records);
      }

  Moves-IsAudited :
      (target : OrderStatus) (db db' : Db)
      → Moves u down target db db'
      → IsAudited db
      → IsAudited db'
  Moves-IsAudited target db db' (inl same) h = subst IsAudited (sym same) h
  Moves-IsAudited target db db' (inr d) h = Delivered-IsAudited target db db' d h

mark_published_row-IsAudited :
    (failed : Bool) (id : Uuid) (at : ℕ) (db : Db)
    → IsAudited db
    → IsAudited (mark_published_row failed id at db).1
unfolding mark_published_row set_published
mark_published_row-IsAudited true id at db h = h
mark_published_row-IsAudited false id at db h = record {
  told = h.told;
  announced = λ k.
      count_if-update_where (outbox_of k) (unpublished_with id) _ (λ r. refl) db.outbox_events
      ∙ h.announced k;
  tracked = h.tracked;
  queued = length-set_published id at db.outbox_events ∙ h.queued;
}

mark_failed_row-IsAudited :
    (failed : Bool) (id : Uuid) (message : String) (db : Db)
    → IsAudited db
    → IsAudited (mark_failed_row failed id message db).1
unfolding mark_failed_row set_failed
mark_failed_row-IsAudited true id message db h = h
mark_failed_row-IsAudited false id message db h = record {
  told = h.told;
  announced = λ k.
      count_if-update_where (outbox_of k) (unpublished_with id) _ (λ r. refl) db.outbox_events
      ∙ h.announced k;
  tracked = h.tracked;
  queued = length-set_failed id message db.outbox_events ∙ h.queued;
}

module _ (u : Uuids) (c : Codec) where
  Step-IsAudited : (db db' : Db) → Step u c db db' → IsAudited db → IsAudited db'
  Step-IsAudited db _ (created q down fresh now input) h =
      elim (create_order_effect u c q down fresh now input db) [
        | inl same ↦ subst IsAudited (sym same) h
        | inr (p, new, s) ↦
            (let row = tracking_row s.tracking_id s.tracking_order p.1 in
              let same : s.tracking_order ≡ s.row.id =
                same_key u _ _ _ _ s.tracking_order_key new.1 s.order_key in
              let queued_order : s.aggregate ≡ s.row.id =
                same_key u _ _ _ _ s.aggregate_key new.3 s.order_key in
              let orders =
                ap (λ (l : List OrderRow). length l) s.orders ∙ length-append_last db.orders _ in
              let tracks =
                ap (λ (l : List TrackingRow). length l) s.tracked
                ∙ length-append_last db.tracking_events _ in
              let queue =
                ap (λ (l : List OutboxRow). length l) s.queued
                ∙ length-append_last db.outbox_events _ in
              let records = ap (λ (l : List ProcessedRow). length l) s.processed_events in
              record {
                told =
                    subst (λ (x : List OrderRow × List TrackingRow). All (IsTold x.1) x.0)
                      (λ i. (sym s.orders i, sym s.tracked i))
                      (created-AllTold db.tracking_events row s.row db.orders same
                        (new.2 ∙ sym new.0 ∙ sym s.is_row.status) s.is_new h.told);
                announced = λ k.
                    ap (count_if (outbox_of k)) s.queued
                    ∙ announced-append db row (outbox_row s.outbox_id s.aggregate p.2) k
                        (queued_order ∙ sym same) (h.announced k)
                    ∙ ap (count_if (tracking_of k)) (sym s.tracked);
                tracked = omega (arith, h.tracked, orders, tracks, records);
                queued = omega (arith, h.queued, orders, queue, records);
              })
      ]
  Step-IsAudited db db' (deposit_event down ids now e) h =
      Moves-IsAudited u down waiting_purchase db _ (deposit-Moves u down c ids now e db) h
  Step-IsAudited db db' (remaining_event down ids now e) h =
      Moves-IsAudited u down ready_for_domestic_delivery db _
        (remaining-Moves u down c ids now e db) h
  Step-IsAudited db db' (package_event down ids now e) h =
      Moves-IsAudited u down arrived_foreign_warehouse db _ (package-Moves u down c ids now e db) h
  Step-IsAudited db db' (published failed id at) h = mark_published_row-IsAudited failed id at db h
  Step-IsAudited db db' (publish_failed failed id message) h =
      mark_failed_row-IsAudited failed id message db h

  -- In all reachable tables every order has the status that its newest tracking event names, the
  -- outbox has as many rows for an order as there are tracking events of it, and both tables have one
  -- row for each order and each processed event.
  pub Reachable-IsAudited : (db : Db) → Reachable u c db → IsAudited db
  unfolding count_if
  Reachable-IsAudited =
      Reachable_induction u c IsAudited
        (record { told = tt; announced = λ k. refl; tracked = refl; queued = refl }) Step-IsAudited
