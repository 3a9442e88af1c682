-- ===== src/Quotation/Repository.antt =====
-- backend/internal/quotation/adapters/postgres/repository.go: `down` says which calls of the
-- database fail. `numeric` is the text that PostgreSQL gives back for a text stored in the column
-- NUMERIC(24,6) with `CHECK (source_price > 0)`, or `none` where the insert fails.
pub mod Confirmation
pub mod Stored
use cross_border_logistics.Prelude.{
  ℕ, ℤ, pos, String, Bool, true, false, not, ◌&&◌, ◌||◌, Option, none, some, List, [], ◌∷◌, ◌++◌,
  ◌==◌, str_eq, if◌then◌else◌, leb_ℤ, ltb_ℤ, any, find, update_where, Result, ok, err, or_error,
}
use cross_border_logistics.Prelude.Checks.{◌>>=◌, ◌>>◌, fail_if}
use cross_border_logistics.External.{Uuid, Uuids}
use cross_border_logistics.Quotation.Domain.{
  QuotationError, quotation_not_found, quotation_conflict, internal, Status, pending_confirmation,
  confirmed, Quotation, QuotationRow, Db,
}
use cross_border_logistics.Quotation.Price.{parse_source_price, format_source_price}

pub data Call : Type 0 where
  insert_quotation : Call
  find_quotation : Call
  update_quotation : Call

-- Every call succeeds.
abbrev pub up : Call → Bool
up c = false

abbrev pub quotation_is : Uuid → QuotationRow → Bool
quotation_is k r = r.id == k

abbrev pub is_pending : Status → Bool
is_pending pending_confirmation = true
is_pending _ = false

abbrev pub is_confirmed : Status → Bool
is_confirmed confirmed = true
is_confirmed _ = false

abbrev pub is_for : Uuid → Option Uuid → Bool
is_for order none = false
is_for order (some k) = k == order

-- `WHERE id=$1 AND (status='PENDING_CONFIRMATION' OR (status='CONFIRMED' AND confirmed_order_id=$2))`
abbrev pub confirmable : Uuid → Uuid → QuotationRow → Bool
confirmable k order r =
    quotation_is k r
    && (is_pending r.status || is_confirmed r.status && is_for order r.confirmed_order_id)

abbrev pub confirmed_for : Uuid → ℕ → QuotationRow → QuotationRow
confirmed_for order at r = record r {
  status = confirmed;
  confirmed_order_id = some order;
  updated_at = at;
}

-- `VARCHAR(3)`
abbrev at_most_three : String → Bool
at_most_three String.[] = true
at_most_three (String.◌∷◌ a String.[]) = true
at_most_three (String.◌∷◌ a (String.◌∷◌ b String.[])) = true
at_most_three (String.◌∷◌ a (String.◌∷◌ b (String.◌∷◌ c s))) = str_eq s ""

module _ (u : Uuids) (numeric : String → Option String) (down : Call → Bool) where
  pub row_of : Uuid → String → Quotation → QuotationRow
  row_of k price q = record {
    id = k;
    customer_id = q.customer_id;
    product_url = q.product_url;
    product_name = q.product_name;
    image_url = q.image_url;
    source_price = price;
    currency = q.currency;
    quantity = q.quantity;
    exchange_rate = q.exchange_rate;
    product_amount_vnd = q.product_amount_vnd;
    service_fee_vnd = q.service_fee_vnd;
    estimated_shipping_fee = q.estimated_shipping_fee;
    total_amount_vnd = q.total_amount_vnd;
    status = q.status;
    created_at = q.created_at;
    updated_at = q.updated_at;
    confirmed_order_id = none;
  }

  inserted : Quotation → Db → Result QuotationError QuotationRow
  unfolding row_of
  inserted q db = do
    fail_if (down insert_quotation) internal
    k ← or_error (u.column q.id) internal
    price ← or_error (numeric (format_source_price q.source_price_micros)) internal
    fail_if (not (at_most_three q.currency)) internal
    fail_if (leb_ℤ q.quantity (pos 0) || ltb_ℤ (pos 2147483647) q.quantity) internal
    fail_if (any (quotation_is k) db) internal
    ok (row_of k price q)

  appended : Result QuotationError QuotationRow → Db → Result QuotationError (Unit {0}) × Db
  appended (err e) db = (err e, db)
  appended (ok row) db = (ok tt, db ++ row ∷ [])

  -- `Create`
  unfoldable pub create : Quotation → Db → Result QuotationError (Unit {0}) × Db
  unfolding inserted appended
  create q db = appended (inserted q db) db

  scan : QuotationRow → ℤ → Quotation
  scan r price = record {
    id = u.format r.id;
    customer_id = r.customer_id;
    product_url = r.product_url;
    product_name = r.product_name;
    image_url = r.image_url;
    source_price_micros = price;
    currency = r.currency;
    quantity = r.quantity;
    exchange_rate = r.exchange_rate;
    product_amount_vnd = r.product_amount_vnd;
    service_fee_vnd = r.service_fee_vnd;
    estimated_shipping_fee = r.estimated_shipping_fee;
    total_amount_vnd = r.total_amount_vnd;
    status = r.status;
    created_at = r.created_at;
    updated_at = r.updated_at;
  }

  scanned : QuotationRow → Result QuotationError ℤ → Result QuotationError Quotation
  unfolding scan
  scanned r (err e) = err internal
  scanned r (ok price) = ok (scan r price)

  -- `FindByID`
  unfoldable pub find_by_id : String → Db → Result QuotationError Quotation
  unfolding scanned
  find_by_id id db = do
    fail_if (down find_quotation) internal
    k ← or_error (u.column id) internal
    row ← or_error (find (quotation_is k) db) quotation_not_found
    scanned row (parse_source_price row.source_price)

  -- The statement of `Confirm`, which reads and writes the row in one step.
  update_confirmed : String → String → ℕ → Db → Result QuotationError (Unit {0}) × Db
  update_confirmed id order_id at db = elim (u.column id) [
    | none ↦ (err internal, db)
    | some k ↦ elim (u.column order_id) [
      | none ↦ (err internal, db)
      | some order ↦
          if any (confirmable k order) db
          then (ok tt, update_where (confirmable k order) (confirmed_for order at) db)
          else (err quotation_conflict, db)
    ]
  ]

  after_update :
      String → Result QuotationError (Unit {0}) × Db → Result QuotationError Quotation × Db
  after_update id (err e, db) = (err e, db)
  after_update id (ok t, db) = (find_by_id id db, db)

  -- `Confirm`, whose last lookup is a statement of its own
  unfoldable pub confirm : String → String → ℕ → Db → Result QuotationError Quotation × Db
  unfolding update_confirmed after_update
  confirm id order_id at db =
      if down update_quotation
      then (err internal, db)
      else after_update id (update_confirmed id order_id at db)
