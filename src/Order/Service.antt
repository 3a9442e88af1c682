-- ===== src/Order/Service.antt =====
-- backend/internal/order/application/service.go.
-- The quotation service is a port; `time.Now` and the random UUIDs are arguments.
pub mod Handlers
pub mod Money
pub mod Creation
use Prim.Native.String.{◌++◌ as append}
use cross_border_logistics.Prelude.{
  ℕ, ℤ, pos, String, Bool, true, false, not, ◌&&◌, ◌||◌, Option, none, some, List, [], ◌∷◌, str_eq,
  if◌then◌else◌, leb_ℤ, eq_ℤ, add64, sub64, mul64, quot64, rem64, Result, ok, err, or_error,
}
use cross_border_logistics.Prelude.Checks.{◌>>=◌, ◌>>◌, fail_if}
use cross_border_logistics.Go.{trim_space}
use cross_border_logistics.External.{Uuid, Uuids}
use cross_border_logistics.Event.{order_created, OrderCreatedData, TextEnvelope, Codec}
use cross_border_logistics.Order.Domain.{
  OrderStatus, waiting_deposit, wire, OrderError, invalid_input, customer_mismatch,
  invalid_quotation, panicked, internal, OrderItem, Order, TrackingEvent,
}
use cross_border_logistics.Order.Ports.{QuotationSnapshot, OutboxEvent, Db}
use cross_border_logistics.Order.Repository.{Call}
use cross_border_logistics.Order.Repository.Create.{create}
use cross_border_logistics.Order.Repository.Queries.{Query, find_by_id, timeline}

abbrev pub quotation_status_pending : String
quotation_status_pending = "PENDING_CONFIRMATION"

abbrev pub initial_tracking_description : String
initial_tracking_description = "Đơn hàng đã được tạo, đang chờ thanh toán tiền cọc"

pub record CreateInput : Type 0 where
  pub quotation_id : String
  pub customer_id : String
  pub delivery_address : String

pub record PaymentSummary : Type 0 where
  pub order_id : String
  pub deposit_amount_vnd : ℤ
  pub remaining_amount_vnd : ℤ
  pub status : OrderStatus

pub record WarehouseSummary : Type 0 where
  pub order_id : String
  pub customer_id : String
  pub status : OrderStatus
  pub created_at : ℕ

-- `QuotationReader`, which may be a `QuotationConfirmer` too.
pub record Quotations : Type 0 where
  pub get_quotation : String → Result OrderError QuotationSnapshot
  pub confirm_quotation : Option (String → String → Result OrderError QuotationSnapshot)

-- The results of `uuid.NewString` in one call of `Create`.
pub record Fresh : Type 0 where
  pub item : Uuid
  pub tracking : Uuid
  pub event : Uuid

-- `deposit := total/100*70 + total%100*70/100`
unfoldable pub deposit_of : ℤ → ℤ
deposit_of total =
    add64 (mul64 (quot64 total (pos 100)) (pos 70))
      (quot64 (mul64 (rem64 total (pos 100)) (pos 70)) (pos 100))

-- `canConfirm`
abbrev pub can_confirm : Quotations → Bool
can_confirm q = elim q.confirm_quotation [ none ↦ false | some f ↦ true ]

-- The status and the numbers that a quotation may have to be ordered.
unfoldable pub is_eligible : Quotations → QuotationSnapshot → Bool
is_eligible q s =
    (str_eq s.status quotation_status_pending || can_confirm q && str_eq s.status "CONFIRMED")
    && not (leb_ℤ s.quantity (pos 0))
    && not (leb_ℤ s.total_amount_vnd (pos 0))

confirmed_by :
    Option (String → String → Result OrderError QuotationSnapshot)
    → String
    → QuotationSnapshot
    → Result OrderError QuotationSnapshot
confirmed_by none order_id quotation = ok quotation
confirmed_by (some confirm) order_id quotation = confirm quotation.quotation_id order_id

-- The quotation to order from, confirmed where the port can do that.
unfoldable pub confirmed :
    Quotations → String → QuotationSnapshot → Result OrderError QuotationSnapshot
unfolding confirmed_by
confirmed q = confirmed_by q.confirm_quotation

module _ (u : Uuids) (c : Codec) where
  -- `uuid.NewSHA1(uuid.NameSpaceURL, "order:"+quotationID).String()`
  unfoldable pub order_id_of : String → String
  order_id_of quotation_id = u.format (u.name_based (append "order:" quotation_id))

  -- The order that is made of a quotation.
  unfoldable pub new_order : String → String → String → QuotationSnapshot → Uuid → ℕ → Order
  new_order order_id customer address quotation item now =
      let deposit = deposit_of quotation.total_amount_vnd in
      record {
        id = order_id;
        customer_id = customer;
        quotation_id = quotation.quotation_id;
        delivery_address = address;
        total_amount_vnd = quotation.total_amount_vnd;
        deposit_amount_vnd = deposit;
        remaining_amount_vnd = sub64 quotation.total_amount_vnd deposit;
        status = waiting_deposit;
        created_at = now;
        updated_at = now;
        items =
            record {
              id = u.format item;
              order_id = order_id;
              product_name = quotation.product_name;
              product_url = quotation.product_url;
              quantity = quotation.quantity;
              unit_price_vnd = quot64 quotation.total_amount_vnd quotation.quantity;
              total_price_vnd = quotation.total_amount_vnd;
              created_at = now;
            }
            ∷ [];
      }

  unfoldable pub initial_tracking : Order → Uuid → ℕ → TrackingEvent
  initial_tracking order id now = record {
    id = u.format id;
    order_id = order.id;
    status = order.status;
    description = initial_tracking_description;
    source = "order-service";
    occurred_at = now;
    created_at = now;
  }

  -- `makeOrderCreatedEvent`
  unfoldable pub make_order_created_event : Order → Uuid → ℕ → Result OrderError OutboxEvent
  unfolding wire
  make_order_created_event order event now = do
    raw ←
        or_error
          (c.marshal_order_created (record {
            order_id = order.id;
            customer_id = order.customer_id;
            quotation_id = order.quotation_id;
            total_amount_vnd = order.total_amount_vnd;
            deposit_amount_vnd = order.deposit_amount_vnd;
            status = wire order.status;
          }))
          internal
    payload ←
        or_error
          (c.marshal_text_envelope (record {
            event_id = u.format event;
            event_type = order_created;
            aggregate_id = order.id;
            producer = "order-service";
            occurred_at = now;
            payload = raw;
          }))
          internal
    ok (record {
      id = u.format event;
      aggregate_id = order.id;
      event_type = order_created;
      payload = payload;
      created_at = now;
    })

  -- The first half of `Create`: the checks, the quotation, and what is to be stored.
  prepare :
      Quotations → Fresh → ℕ → CreateInput → Result OrderError (Order × TrackingEvent × OutboxEvent)
  prepare q fresh now input = do
    let quotation_id = trim_space input.quotation_id
    let customer_id = trim_space input.customer_id
    let address = trim_space input.delivery_address
    parsed ← or_error (u.parse quotation_id) invalid_input
    fail_if (str_eq address "") invalid_input
    quotation ← q.get_quotation quotation_id
    fail_if (not (str_eq customer_id "") && not (str_eq quotation.customer_id customer_id))
        customer_mismatch
    fail_if (not (is_eligible q quotation)) invalid_quotation
    let order_id = order_id_of quotation.quotation_id
    final ← confirmed q order_id quotation
    fail_if (eq_ℤ final.quantity (pos 0)) panicked
    let customer = if str_eq customer_id "" then final.customer_id else customer_id
    let order = new_order order_id customer address final fresh.item now
    outbox ← make_order_created_event order fresh.event now
    ok (order, initial_tracking order fresh.tracking now, outbox)

  -- `s.repository.Create`, and the order that was given to it as the answer.
  store :
      (Call → Bool)
      → Result OrderError (Order × TrackingEvent × OutboxEvent)
      → Db
      → Result OrderError Order × Db
  store down (err e) db = (err e, db)
  store down (ok (order, tracking, outbox)) db =
      let (r, db') = create u down order tracking outbox db in (r >>= (λ _. ok order), db')

  -- `Create`
  unfoldable pub create_order :
      Quotations → (Call → Bool) → Fresh → ℕ → CreateInput → Db → Result OrderError Order × Db
  unfolding prepare store
  create_order q down fresh now input db = store down (prepare q fresh now input) db

  -- `Get`: the id is checked without its spaces, and looked up with them.
  unfoldable pub get : (Query → Bool) → String → Db → Result OrderError Order
  get down id db = do
    parsed ← or_error (u.parse (trim_space id)) invalid_input
    find_by_id u down id db

  -- `Timeline`
  unfoldable pub get_timeline :
      (Query → Bool) → String → Db → Result OrderError (List TrackingEvent)
  get_timeline down id db = do
    parsed ← or_error (u.parse (trim_space id)) invalid_input
    timeline u down id db

  -- `GetPaymentSummary`
  unfoldable pub get_payment_summary :
      (Query → Bool) → String → Db → Result OrderError PaymentSummary
  unfolding get
  get_payment_summary down id db = do
    order ← get down id db
    ok (record {
      order_id = order.id;
      deposit_amount_vnd = order.deposit_amount_vnd;
      remaining_amount_vnd = order.remaining_amount_vnd;
      status = order.status;
    })

  -- `GetWarehouseSummary`
  unfoldable pub get_warehouse_summary :
      (Query → Bool) → String → Db → Result OrderError WarehouseSummary
  unfolding get
  get_warehouse_summary down id db = do
    order ← get down id db
    ok (record {
      order_id = order.id;
      customer_id = order.customer_id;
      status = order.status;
      created_at = order.created_at;
    })
