-- ===== src/Payment/Service/Creation.antt =====
-- What the creation of a payment can do.
use cross_border_logistics.Prelude.{
  ℕ, String, Bool, true, false, Option, some, ◌==◌, ◌&&◌, ◌≡◌, ◌⊎◌, ◌∙◌, inl, inr, refl, sym, ap,
  arith, find, any, any-append_last, find-any, Result, ok, err, Option-cases,
}
use cross_border_logistics.External.{Uuid, Uuids}
use cross_border_logistics.Payment.Domain.{
  PaymentType, pending, same_type, PaymentError, Payment, Gateway, PaymentRow, Db,
}
use cross_border_logistics.Payment.Repository.{
  Call, find_payment, create, scan, find_by_order_id_and_type,
}
use cross_border_logistics.Payment.Repository.Stored.{payment_row, create-Stored}
use cross_border_logistics.Payment.Service.{Orders, new_payment, create_payment}

pub same_type_refl : (t : PaymentType) → same_type t t ≡ true
same_type_refl t = ground arith

abbrev pub of_order : Uuid → PaymentType → PaymentRow → Bool
of_order k type r = r.order_id == k && same_type r.type type

module _ (u : Uuids) (down : Call → Bool) (orders : Orders) (gateway : Option Gateway)
    (order_id : String) (type : PaymentType) (expected : String) (fresh : Uuid) (now : ℕ) where
  abbrev run : Db → Result PaymentError Payment × Db
  run = create_payment u down orders gateway order_id type expected fresh now

  -- The payment that is made for an order is pending and for the order.
  new_payment_of :
      (p : Payment)
      → new_payment u orders gateway order_id type expected fresh now ≡ ok p
      → (p.status ≡ pending) × (p.order_id ≡ order_id) × (p.type ≡ type)
  unfolding new_payment
  new_payment_of p h = (ground arith, ground arith, ground arith)

  -- After a lookup that finds nothing, the tables are those after `Create` of the new payment.
  run_creates :
      (db : Db) (p : Payment)
      → new_payment u orders gateway order_id type expected fresh now ≡ ok p
      → ((run db).1 ≡ db) ⊎ ((run db).1 ≡ (create u down p db).1)
  unfolding create_payment
  run_creates db p h = ground arith

  run_fails :
      (db : Db) (e : PaymentError)
      → new_payment u orders gateway order_id type expected fresh now ≡ err e
      → (run db).1 ≡ db
  unfolding create_payment
  run_fails db e h = ground arith

  -- The tables afterwards: as before, or those after `Create` of a pending payment.
  pub create_steps :
      (db : Db)
      → ((run db).1 ≡ db)
        ⊎ ((p : Payment) × (p.status ≡ pending) × ((run db).1 ≡ (create u down p db).1))
  create_steps db = go (new_payment u orders gateway order_id type expected fresh now) refl
    where
      go :
          (r : Result PaymentError Payment)
          → new_payment u orders gateway order_id type expected fresh now ≡ r
          → ((run db).1 ≡ db)
            ⊎ ((p : Payment) × (p.status ≡ pending) × ((run db).1 ≡ (create u down p db).1))
      go (err e) h = inl (run_fails db e h)
      go (ok p) h = elim (run_creates db p h) [
        | inl same ↦ inl same
        | inr made ↦ inr (p, (new_payment_of p h).0, made)
      ]

  -- An answer of the lookup is for a payment that is there.
  looked_up :
      (db : Db) (p : Payment)
      → find_by_order_id_and_type u down order_id type db ≡ ok p
      → (k : Uuid) × (u.column order_id ≡ some k) × (any (of_order k type) db.payments ≡ true)
  unfolding find_by_order_id_and_type
  looked_up db p h = elim (Option-cases (u.column order_id)) [
    | inl bad ↦ absurd (ground arith)
    | inr (k, key) ↦ elim (Option-cases (find (of_order k type) db.payments)) [
      | inl missing ↦ absurd (ground arith)
      | inr (row, found) ↦ (k, key, find-any (of_order k type) db.payments row found)
    ]
  ]

  -- An answered request found the order's payment, or stored the one that it made.
  answered :
      (db : Db) (p : Payment) {db' : Db}
      → run db ≡ (ok p, db')
      → ((find_by_order_id_and_type u down order_id type db ≡ ok p) × (db' ≡ db))
        ⊎ ((new_payment u orders gateway order_id type expected fresh now ≡ ok p)
            × (create u down p db ≡ (ok tt, db')))
  unfolding create_payment
  answered db p h = ground arith

  -- After an answered request the order has a payment of this type.
  pub has_payment :
      (db : Db) (p : Payment) {db' : Db}
      → run db ≡ (ok p, db')
      → (k : Uuid) × (u.column order_id ≡ some k) × (any (of_order k type) db'.payments ≡ true)
  has_payment db p {db'} h = elim (answered db p h) [
    | inl (found, same) ↦
        (let there = looked_up db p found in (there.0, there.1, rw same (there.2)))
    | inr (made, stored) ↦
        (let s = create-Stored u down p db stored in
          let of = new_payment_of p made in
          let row = payment_row s.id s.order p in
          let key : u.column order_id ≡ some s.order = ap u.column (sym of.1) ∙ s.order_key in
          let fits : of_order s.order type row ≡ true =
            rw of.2 (ground (arith, same_type_refl type)) in
          (
            s.order,
            key,
            rw s.stored (any-append_last (of_order s.order type) db.payments row fits),
          ))
  ]

module _ (u : Uuids) (order_id : String) (type : PaymentType) where
  -- A request for an order that has a payment of this type gives a stored one and writes nothing.
  pub create_existing :
      (down : Call → Bool) (orders : Orders) (gateway : Option Gateway) (expected : String)
      (fresh key k : Uuid) (now : ℕ) (db : Db) (row : PaymentRow)
      → u.parse order_id ≡ some key
      → u.column order_id ≡ some k
      → find (of_order k type) db.payments ≡ some row
      → down find_payment ≡ false
      → create_payment u down orders gateway order_id type expected fresh now db
        ≡ (ok (scan u down row), db)
  unfolding create_payment find_by_order_id_and_type scan
  create_existing down orders gateway expected fresh key k now db row p c f w = ground arith

pub parsed :
    (u : Uuids) (down : Call → Bool) (orders : Orders) (gateway : Option Gateway)
    (order_id : String) (type : PaymentType) (expected : String) (fresh : Uuid) (now : ℕ) (db : Db)
    (p : Payment) {db' : Db}
    → create_payment u down orders gateway order_id type expected fresh now db ≡ (ok p, db')
    → (key : Uuid) × (u.parse order_id ≡ some key)
unfolding create_payment
parsed u down orders gateway order_id type expected fresh now db p h = ground arith
