-- ===== src/Quotation/Service.antt =====
-- backend/internal/quotation/application/service.go. The rates, the restrictions, the extractor and
-- `strings.ToUpper` are parameters; `time.Now` and the random UUID are arguments. Times are in
-- microseconds, as the database stores them. `Result` is the quotation with its price printed.
use cross_border_logistics.Prelude.{
  ℕ, ◌+◌, ℤ, pos, String, Bool, ◌||◌, Option, str_eq, ltb, leb_ℤ, Result, ok, err, or_error,
}
use cross_border_logistics.Prelude.Checks.{◌>>=◌, ◌>>◌, fail_if}
use cross_border_logistics.Go.{trim_space}
use cross_border_logistics.External.{Uuid, Uuids}
use cross_border_logistics.Quotation.Domain.{
  QuotationError, restricted_product, invalid_quotation_input, extraction_unavailable,
  pending_confirmation, Status, Quotation, Db, estimated_shipping_fee_vnd, calculate,
}
use cross_border_logistics.Quotation.Price.{parse_source_price, format_source_price}
use cross_border_logistics.Quotation.Repository.{Call, create, find_by_id, confirm}

pub record CreateInput : Type 0 where
  pub customer_id : String
  pub product_url : String
  pub product_name : String
  pub source_price : String
  pub currency : String
  pub quantity : ℤ

pub record ExtractInput : Type 0 where
  pub customer_id : String
  pub product_url : String
  pub quantity : ℤ

-- `ports.ExtractedProduct`
pub record ExtractedProduct : Type 0 where
  pub url : String
  pub name : String
  pub source_price : String
  pub currency : String
  pub image_url : String

pub record Snapshot : Type 0 where
  pub quotation_id : String
  pub customer_id : String
  pub product_url : String
  pub product_name : String
  pub quantity : ℤ
  pub total_amount_vnd : ℤ
  pub status : Status
  pub created_at : ℕ

-- `Result` of the service: a quotation and the text of its price.
pub record View : Type 0 where
  pub quotation : Quotation
  pub source_price : String

-- `ExchangeRateProvider`, `ProductRestrictionChecker`, `ProductExtractor` and `strings.ToUpper`
pub record Ports : Type 0 where
  pub rate : String → Result QuotationError ℤ
  pub is_restricted : String → String → Bool
  pub extract : Option (String → Result QuotationError ExtractedProduct)
  pub to_upper : String → String

-- `toResult`
unfoldable pub to_result : Quotation → View
to_result q = record { quotation = q; source_price = format_source_price q.source_price_micros }

unfoldable pub snapshot_of : Quotation → Snapshot
snapshot_of q = record {
  quotation_id = q.id;
  customer_id = q.customer_id;
  product_url = q.product_url;
  product_name = q.product_name;
  quantity = q.quantity;
  total_amount_vnd = q.total_amount_vnd;
  status = q.status;
  created_at = q.created_at;
}

abbrev pub thirty_minutes : ℕ
thirty_minutes = 1800000000

module _ (u : Uuids) (numeric : String → Option String) (ports : Ports) (down : Call → Bool) where
  -- The first half of `create`: the checks, and the quotation to store.
  unfoldable pub prepare : Uuid → ℕ → CreateInput → String → Result QuotationError Quotation
  prepare fresh now input image_url = do
    let customer = trim_space input.customer_id
    let url = trim_space input.product_url
    let name = trim_space input.product_name
    let currency = ports.to_upper (trim_space input.currency)
    fail_if
        (str_eq customer ""
          || str_eq url ""
          || str_eq name ""
          || str_eq currency ""
          || leb_ℤ input.quantity (pos 0))
        invalid_quotation_input
    price ← elim (parse_source_price input.source_price) [
      | ok p ↦ ok p
      | err e ↦ err invalid_quotation_input
    ]
    fail_if (ports.is_restricted name url) restricted_product
    rate ← ports.rate currency
    (amount, fee, total) ← calculate price input.quantity rate
    ok (record {
      id = u.format fresh;
      customer_id = customer;
      product_url = url;
      product_name = name;
      image_url = image_url;
      source_price_micros = price;
      currency = currency;
      quantity = input.quantity;
      exchange_rate = rate;
      product_amount_vnd = amount;
      service_fee_vnd = fee;
      estimated_shipping_fee = pos estimated_shipping_fee_vnd;
      total_amount_vnd = total;
      status = pending_confirmation;
      created_at = now;
      updated_at = now;
    })

  -- `s.repository.Create`, and the quotation that was given to it as the answer.
  store : Result QuotationError Quotation → Db → Result QuotationError View × Db
  store (err e) db = (err e, db)
  store (ok q) db =
      let (r, db') = create u numeric down q db in (r >>= (λ _. ok (to_result q)), db')

  -- `create`
  unfoldable pub create_with_image :
      Uuid → ℕ → CreateInput → String → Db → Result QuotationError View × Db
  unfolding store
  create_with_image fresh now input image_url db = store (prepare fresh now input image_url) db

  -- `Create`
  unfoldable pub create_quotation : Uuid → ℕ → CreateInput → Db → Result QuotationError View × Db
  create_quotation fresh now input = create_with_image fresh now input ""

  -- The input of `create` that `Extract` makes, with the product's image.
  extracted : ExtractInput → Result QuotationError (CreateInput × String)
  extracted input = do
    extract ← or_error ports.extract extraction_unavailable
    let customer = trim_space input.customer_id
    let url = trim_space input.product_url
    fail_if (str_eq customer "" || str_eq url "" || leb_ℤ input.quantity (pos 0))
        invalid_quotation_input
    product ← extract url
    ok (
      record {
        customer_id = customer;
        product_url = product.url;
        product_name = product.name;
        source_price = product.source_price;
        currency = product.currency;
        quantity = input.quantity;
      },
      product.image_url,
    )

  created_from :
      Uuid → ℕ → Result QuotationError (CreateInput × String) → Db → Result QuotationError View × Db
  created_from fresh now (err e) db = (err e, db)
  created_from fresh now (ok (input, image_url)) db = create_with_image fresh now input image_url db

  -- `Extract`
  unfoldable pub extract_quotation : Uuid → ℕ → ExtractInput → Db → Result QuotationError View × Db
  unfolding extracted created_from
  extract_quotation fresh now input db = created_from fresh now (extracted input) db

  -- `Get`: the id is checked without its spaces, and looked up with them.
  unfoldable pub get : String → Db → Result QuotationError View
  get id db = do
    parsed ← or_error (u.parse (trim_space id)) invalid_quotation_input
    q ← find_by_id u numeric down id db
    ok (to_result q)

  -- `GetSnapshot`
  unfoldable pub get_snapshot : String → Db → Result QuotationError Snapshot
  get_snapshot id db = do view ← get id db; ok (snapshot_of view.quotation)

  -- The checks of `Confirm` at the time `now`.
  unfoldable pub check_confirm : String → String → ℕ → Db → Result QuotationError Quotation
  check_confirm id order_id now db = do
    parsed ← or_error (u.parse (trim_space id)) invalid_quotation_input
    order ← or_error (u.parse (trim_space order_id)) invalid_quotation_input
    q ← find_by_id u numeric down id db
    fail_if (ltb (q.created_at + thirty_minutes) now) invalid_quotation_input
    ok q

  confirmed_by :
      String
      → String
      → ℕ
      → Result QuotationError Quotation
      → Db
      → Result QuotationError Snapshot × Db
  confirmed_by id order_id later (err e) db = (err e, db)
  confirmed_by id order_id later (ok q) db =
      let (r, db') = confirm u numeric down id order_id later db in
      (r >>= (λ p. ok (snapshot_of p)), db')

  -- `Confirm`, which reads the time twice
  unfoldable pub confirm_quotation :
      String → String → ℕ → ℕ → Db → Result QuotationError Snapshot × Db
  unfolding confirmed_by
  confirm_quotation id order_id now later db =
      confirmed_by id order_id later (check_confirm id order_id now db) db
