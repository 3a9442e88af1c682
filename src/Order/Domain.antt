-- ===== src/Order/Domain.antt =====
-- backend/internal/order/domain/order.go: statuses, transitions and the records of an order.
-- A status is a constructor for each constant, `wire` its text. Times are instants, as numbers.
pub mod Transitions
use cross_border_logistics.Prelude.{
  ℕ, ℤ, String, Bool, true, false, not, ◌&&◌, ◌||◌, List, [], ◌∷◌, ◌==◌, if◌then◌else◌,
}

pub data OrderStatus : Type 0 where
  waiting_deposit : OrderStatus
  waiting_purchase : OrderStatus
  purchased : OrderStatus
  in_transit_to_foreign_warehouse : OrderStatus
  arrived_foreign_warehouse : OrderStatus
  packed : OrderStatus
  in_transit_to_domestic_warehouse : OrderStatus
  arrived_domestic_warehouse : OrderStatus
  waiting_remaining_payment : OrderStatus
  ready_for_domestic_delivery : OrderStatus
  out_for_delivery : OrderStatus
  delivered : OrderStatus
  cancelled : OrderStatus

unfoldable pub wire : OrderStatus → String
wire waiting_deposit = "WAITING_DEPOSIT"
wire waiting_purchase = "WAITING_PURCHASE"
wire purchased = "PURCHASED"
wire in_transit_to_foreign_warehouse = "IN_TRANSIT_TO_FOREIGN_WAREHOUSE"
wire arrived_foreign_warehouse = "ARRIVED_FOREIGN_WAREHOUSE"
wire packed = "PACKED"
wire in_transit_to_domestic_warehouse = "IN_TRANSIT_TO_DOMESTIC_WAREHOUSE"
wire arrived_domestic_warehouse = "ARRIVED_DOMESTIC_WAREHOUSE"
wire waiting_remaining_payment = "WAITING_REMAINING_PAYMENT"
wire ready_for_domestic_delivery = "READY_FOR_DOMESTIC_DELIVERY"
wire out_for_delivery = "OUT_FOR_DELIVERY"
wire delivered = "DELIVERED"
wire cancelled = "CANCELLED"

-- The constants in the order of the source, from 0.
abbrev pub ordinal : OrderStatus → ℕ
ordinal waiting_deposit = 0
ordinal waiting_purchase = 1
ordinal purchased = 2
ordinal in_transit_to_foreign_warehouse = 3
ordinal arrived_foreign_warehouse = 4
ordinal packed = 5
ordinal in_transit_to_domestic_warehouse = 6
ordinal arrived_domestic_warehouse = 7
ordinal waiting_remaining_payment = 8
ordinal ready_for_domestic_delivery = 9
ordinal out_for_delivery = 10
ordinal delivered = 11
ordinal cancelled = 12

-- Go compares the texts of two statuses; they are equal exactly for one constant.
unfoldable pub status_eq : OrderStatus → OrderStatus → Bool
status_eq a b = ordinal a == ordinal b

-- The map `allowed`; a status that is no key has no candidates.
unfoldable pub allowed : OrderStatus → List OrderStatus
allowed waiting_deposit = waiting_purchase ∷ []
allowed waiting_purchase = purchased ∷ arrived_foreign_warehouse ∷ []
allowed purchased = in_transit_to_foreign_warehouse ∷ []
allowed in_transit_to_foreign_warehouse = arrived_foreign_warehouse ∷ []
allowed arrived_foreign_warehouse = packed ∷ []
allowed packed = in_transit_to_domestic_warehouse ∷ []
allowed in_transit_to_domestic_warehouse = arrived_domestic_warehouse ∷ []
allowed arrived_domestic_warehouse = waiting_remaining_payment ∷ []
allowed waiting_remaining_payment = ready_for_domestic_delivery ∷ []
allowed ready_for_domestic_delivery = out_for_delivery ∷ []
allowed out_for_delivery = delivered ∷ []
allowed delivered = []
allowed cancelled = []

-- The loop over the candidates.
among : List OrderStatus → OrderStatus → Bool
unfolding status_eq
among [] to = false
among (candidate ∷ rest) to = status_eq candidate to || among rest to

-- `CanTransition`.
unfoldable pub can_transition : OrderStatus → OrderStatus → Bool
unfolding status_eq allowed among
can_transition from to =
    if status_eq to cancelled
    then not (status_eq from cancelled) && not (status_eq from delivered)
    else among (allowed from) to

pub data OrderError : Type 0 where
  order_not_found : OrderError
  quotation_not_found : OrderError
  quotation_conflict : OrderError
  invalid_input : OrderError
  invalid_quotation : OrderError
  customer_mismatch : OrderError
  invalid_transition : OrderError
  dependency : OrderError
  -- a run-time panic: a division by zero
  panicked : OrderError
  -- any other error: of the database, of the encoder
  internal : OrderError

pub record OrderItem : Type 0 where
  pub id : String
  pub order_id : String
  pub product_name : String
  pub product_url : String
  pub quantity : ℤ
  pub unit_price_vnd : ℤ
  pub total_price_vnd : ℤ
  pub created_at : ℕ

pub record Order : Type 0 where
  pub id : String
  pub customer_id : String
  pub quotation_id : String
  pub delivery_address : String
  pub total_amount_vnd : ℤ
  pub deposit_amount_vnd : ℤ
  pub remaining_amount_vnd : ℤ
  pub status : OrderStatus
  pub created_at : ℕ
  pub updated_at : ℕ
  pub items : List OrderItem

pub record TrackingEvent : Type 0 where
  pub id : String
  pub order_id : String
  pub status : OrderStatus
  pub description : String
  pub source : String
  pub occurred_at : ℕ
  pub created_at : ℕ
