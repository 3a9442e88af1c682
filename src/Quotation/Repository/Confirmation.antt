-- ===== src/Quotation/Repository/Confirmation.antt =====
-- What a confirmation does.
use cross_border_logistics.Prelude.{
  ℕ, ◌≤◌, String, Bool, true, false, Option, some, [], ◌∷◌, ◌≡◌, ◌==◌, refl, arith, any, count_if,
  update_where, ok, err,
}
use cross_border_logistics.External.{Uuid, Uuids}
use cross_border_logistics.Quotation.Domain.{quotation_conflict, Quotation, Db}
use cross_border_logistics.Quotation.Repository.{
  Call, update_quotation, quotation_is, confirmable, confirmed_for, confirm,
}

none_of :
    (k order : Uuid) (rows : Db)
    → count_if (quotation_is k) rows ≡ 0
    → any (confirmable k order) rows ≡ false
unfolding count_if any
none_of k order [] h = refl
none_of k order (r ∷ rows) h = ground (arith, none_of k order rows)

none_updated :
    (k order other : Uuid) (at : ℕ) (rows : Db)
    → count_if (quotation_is k) rows ≡ 0
    → any (confirmable k other) (update_where (confirmable k order) (confirmed_for order at) rows)
      ≡ false
unfolding count_if any update_where
none_updated k order other at [] h = refl
none_updated k order other at (r ∷ rows) h = ground (arith, none_updated k order other at rows)

-- The one row of a quotation, confirmed for an order, can be confirmed for no other.
taken :
    (k order other : Uuid) (at : ℕ) (rows : Db)
    → (order == other) ≡ false
    → count_if (quotation_is k) rows ≤ 1
    → any (confirmable k order) rows ≡ true
    → any (confirmable k other) (update_where (confirmable k order) (confirmed_for order at) rows)
      ≡ false
unfolding count_if any update_where
taken k order other at [] d h c = cc
taken k order other at (r ∷ rows) d h c =
    ground
      (arith, none_of k order rows, none_updated k order other at rows, taken k order other at rows)

module _ (u : Uuids) (numeric : String → Option String) (down : Call → Bool) where
  confirm_changes :
      (id order_id : String) (at : ℕ) (k order : Uuid) (db : Db) (q : Quotation) {db' : Db}
      → u.column id ≡ some k
      → u.column order_id ≡ some order
      → confirm u numeric down id order_id at db ≡ (ok q, db')
      → (any (confirmable k order) db ≡ true)
        × (db' ≡ update_where (confirmable k order) (confirmed_for order at) db)
  unfolding confirm
  confirm_changes id order_id at k order db q a b h = (ground arith, ground arith)

  confirm_refuses :
      (id order_id : String) (at : ℕ) (k order : Uuid) (db : Db)
      → u.column id ≡ some k
      → u.column order_id ≡ some order
      → any (confirmable k order) db ≡ false
      → down update_quotation ≡ false
      → confirm u numeric down id order_id at db ≡ (err quotation_conflict, db)
  unfolding confirm
  confirm_refuses id order_id at k order db a b c d = ground arith

-- Once a quotation was confirmed for an order, its confirmation for any other order is refused as a
-- conflict and changes nothing, if the statement is executed and ids are unique in the table.
pub confirm_exclusive :
    (u : Uuids) (numeric : String → Option String) (down again : Call → Bool)
    (id order_id other_id : String) (at at' : ℕ) (k order other : Uuid) (db : Db) (q : Quotation)
    {db' : Db}
    → u.column id ≡ some k
    → u.column order_id ≡ some order
    → u.column other_id ≡ some other
    → (order == other) ≡ false
    → count_if (quotation_is k) db ≤ 1
    → confirm u numeric down id order_id at db ≡ (ok q, db')
    → again update_quotation ≡ false
    → confirm u numeric again id other_id at' db' ≡ (err quotation_conflict, db')
confirm_exclusive u numeric down again id order_id other_id at at' k order other db q {db'} a b c
      differs unique h works =
    let changed = confirm_changes u numeric down id order_id at k order db q a b h in
    confirm_refuses u numeric again id other_id at' k other db' a c
      (rw changed.1 (taken k order other at db differs unique changed.0)) works
