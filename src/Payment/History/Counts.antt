-- ===== src/Payment/History/Counts.antt =====
-- How many payments an order can have, and how many outbox rows the payments have.
use cross_border_logistics.Prelude.{
  ℕ, ◌+◌, ◌≤◌, String, Bool, true, false, ◌≡◌, ◌∙◌, inl, inr, refl, sym, ap, subst, arith, List, [],
  ◌∷◌, ◌++◌, ◌==◌, length, any, count_if, count_if-append, count_if-none, count_if-update_where,
  count_if-update_one, length-append_last, ◌&&◌, Bool-cases,
}
use cross_border_logistics.External.{Uuid, Uuids}
use cross_border_logistics.Outbox.Table.{OutboxRow, length-set_published, length-set_failed}
use cross_border_logistics.Payment.Domain.{
  pending, succeeded, is_succeeded, can_transition, is_deposit, is_remaining, Payment, PaymentRow,
  OutboxEvent, Db,
}
use cross_border_logistics.Payment.Repository.{
  Call, payment_is, deposit_of_order, remaining_of_order, mark_published, mark_failed, mark_outbox,
}
use cross_border_logistics.Payment.Repository.Stored.{payment_row, Stored, create_effect}
use cross_border_logistics.Payment.Repository.Success.{paid_at}
use cross_border_logistics.Payment.Repository.Effects.{Pays, succeed-Pays, callback-Pays}
use cross_border_logistics.Payment.History.{
  Step, created, marked, called_back, published, publish_failed, Reachable, Reachable_induction,
}

abbrev pub paid_row : PaymentRow → Bool
paid_row r = is_succeeded r.status

-- Each id, each deposit of an order and each remaining payment of an order stands in one row at
-- most, and there are as many outbox rows as payments that have succeeded.
pub record IsBooked (db : Db) : Type 0 where
  pub one_id : (k : Uuid) → count_if (payment_is k) db.payments ≤ 1
  pub one_deposit : (order : Uuid) → count_if (deposit_of_order order) db.payments ≤ 1
  pub one_remaining : (order : Uuid) → count_if (remaining_of_order order) db.payments ≤ 1
  pub announced : length db.outbox_events ≡ count_if paid_row db.payments

-- A row that passes a test is stored only if no other passes it.
append_one :
    (p : PaymentRow → Bool) (rows : List PaymentRow) (row : PaymentRow)
    → count_if p rows ≤ 1
    → (p row ≡ true → any p rows ≡ false)
    → count_if p (rows ++ row ∷ []) ≤ 1
unfolding count_if
append_one p rows row h new =
    ground (arith, count_if-append p rows (row ∷ []), count_if-none p rows)

-- A test by an id that holds of no row, for an equal id.
by_id :
    (p : ℕ → PaymentRow → Bool) (rows : List PaymentRow) (a k : ℕ)
    → any (p a) rows ≡ false
    → (a == k) ≡ true
    → any (p k) rows ≡ false
by_id p rows a k h e =
    let same : a ≡ k = ground arith in subst (λ (x : ℕ). any (p x) rows ≡ false) same h

and_left : (a b : Bool) → (a && b) ≡ true → a ≡ true
and_left true b h = refl
and_left false b h = h

unless_type : (a b : Bool) → a ≡ true → (a && b) ≡ false → b ≡ false
unless_type true b h e = e
unless_type false b h e = cc

and_right : (a b : Bool) → (a && b) ≡ true → b ≡ true
and_right true b h = h
and_right false b h = cc

-- A payment that may succeed has not done so.
not_paid :
    (r : PaymentRow) → can_transition r.status succeeded ≡ true → is_succeeded r.status ≡ false
unfolding can_transition
not_paid r h = ground arith

module _ (u : Uuids) (down : Call → Bool) where
  Stored-IsBooked :
      (p : Payment) (db db' : Db)
      → p.status ≡ pending
      → Stored u down p db db'
      → IsBooked db
      → IsBooked db'
  unfolding count_if
  Stored-IsBooked p db db' waiting s h =
      let row = payment_row s.id s.order p in
      let unpaid : is_succeeded p.status ≡ false = rw waiting refl in
      record {
        one_id = λ k. rw s.stored (
            append_one (payment_is k) db.payments row (h.one_id k)
              (by_id payment_is db.payments s.id k s.is_new));
        one_deposit = λ order. rw s.stored (
            append_one (deposit_of_order order) db.payments row (h.one_deposit order) λ e.
              by_id deposit_of_order db.payments s.order order
                (unless_type (is_deposit p.type) _ (and_left (is_deposit p.type) _ e) s.one_deposit)
                (and_right (is_deposit p.type) _ e));
        one_remaining = λ order. rw s.stored (
            append_one (remaining_of_order order) db.payments row (h.one_remaining order) λ e.
              by_id remaining_of_order db.payments s.order order
                (unless_type (is_remaining p.type) _ (and_left (is_remaining p.type) _ e)
                  s.one_remaining)
                (and_right (is_remaining p.type) _ e));
        announced =
            rw (s.stored, s.queue_kept)
              (ground
                (arith, h.announced, count_if-append paid_row db.payments (row ∷ []), unpaid));
      }

  Paid-IsBooked :
      (id : String) (outbox : OutboxEvent) (db db' : Db)
      → Pays u down id outbox db db'
      → IsBooked db
      → IsBooked db'
  Paid-IsBooked id outbox db db' (inl (payments, queue)) h = record {
    one_id = λ k. rw payments (h.one_id k);
    one_deposit = λ order. rw payments (h.one_deposit order);
    one_remaining = λ order. rw payments (h.one_remaining order);
    announced = rw (payments, queue) (h.announced);
  }
  Paid-IsBooked id outbox db db' (inr s) h =
      let unpaid : is_succeeded s.row.status ≡ false = not_paid s.row s.legal in
      let set =
        λ (p : PaymentRow → Bool) (same : (r : PaymentRow) → p (paid_at outbox.created_at r) ≡ p r).
          count_if-update_where p (payment_is s.payment) (paid_at outbox.created_at) same
            db.payments in
      record {
        one_id = λ k. rw (s.payments_set, set (payment_is k) (λ r. refl)) (h.one_id k);
        one_deposit =
            λ k. rw (s.payments_set, set (deposit_of_order k) (λ r. refl)) (h.one_deposit k);
        one_remaining =
            λ k. rw (s.payments_set, set (remaining_of_order k) (λ r. refl)) (h.one_remaining k);
        announced =
            rw
              (
                s.payments_set,
                s.queued,
                count_if-update_one (payment_is s.payment) paid_row (paid_at outbox.created_at)
                    (λ r. refl) db.payments s.row (h.one_id s.payment) s.found unpaid,
              )
              (length-append_last db.outbox_events _ ∙ ap (λ n. n + 1) h.announced);
      }

-- Publishing marks rows of the outbox.
queue_marked :
    (db : Db) (rows : List OutboxRow)
    → length rows ≡ length db.outbox_events
    → IsBooked db
    → IsBooked (record db { outbox_events = rows })
queue_marked db rows same h = record {
  one_id = h.one_id;
  one_deposit = h.one_deposit;
  one_remaining = h.one_remaining;
  announced = same ∙ h.announced;
}

module _ (u : Uuids) (down : Call → Bool) (id : Uuid) (db : Db) (h : IsBooked db) where
  mark_published-IsBooked : (at : ℕ) → IsBooked (mark_published u down id at db).1
  unfolding mark_published
  mark_published-IsBooked at = elim (Bool-cases (down mark_outbox)) [
    | inl broken ↦ rw broken (h)
    | inr works ↦ rw works (queue_marked db _ (length-set_published id at db.outbox_events) h)
  ]

  mark_failed-IsBooked : (message : String) → IsBooked (mark_failed u down id message db).1
  unfolding mark_failed
  mark_failed-IsBooked message = elim (Bool-cases (down mark_outbox)) [
    | inl broken ↦ rw broken (h)
    | inr works ↦ rw works (queue_marked db _ (length-set_failed id message db.outbox_events) h)
  ]

module _ (u : Uuids) where
  Step-IsBooked : (db db' : Db) → Step u db db' → IsBooked db → IsBooked db'
  Step-IsBooked db _ (created down p waiting) h = elim (create_effect u down p db) [
    | inl same ↦ subst IsBooked (sym same) h
    | inr s ↦ Stored-IsBooked u down p db _ waiting s h
  ]
  Step-IsBooked db _ (marked down id outbox) h =
      Paid-IsBooked u down id outbox db _ (succeed-Pays u down id outbox db) h
  Step-IsBooked db _ (called_back down id event_id outbox) h =
      Paid-IsBooked u down id outbox db _ (callback-Pays u down id outbox event_id db) h
  Step-IsBooked db _ (published down id at) h = mark_published-IsBooked u down id db h at
  Step-IsBooked db _ (publish_failed down id message) h =
      mark_failed-IsBooked u down id db h message

  -- In every table that calls of the repository lead to, whichever calls of the database failed and
  -- in whatever order requests ran, each order has at most one deposit and at most one remaining
  -- payment, each id one row, and there is one outbox row for each payment that has succeeded.
  pub Reachable-IsBooked : (db : Db) → Reachable u db → IsBooked db
  unfolding count_if
  Reachable-IsBooked =
      Reachable_induction u IsBooked
        (record {
          one_id = λ k. omega arith;
          one_deposit = λ k. omega arith;
          one_remaining = λ k. omega arith;
          announced = refl;
        })
        Step-IsBooked
