-- ===== src/Quotation/Domain.antt =====
-- backend/internal/quotation/domain/quotation.go: the amounts of a quotation. The calculation on
-- big.Int is on the native numbers, since its arguments are positive by then.
pub mod Amounts
use cross_border_logistics.External.{Uuid}
use cross_border_logistics.Prelude.{
  ℕ, ◌+◌, ◌*◌, ◌/◌, ◌-◌, ℤ, pos, Bool, ◌||◌, not, leb_ℤ, ltb_ℤ, ltb, pos_part, add64, sub64, two63,
  if◌then◌else◌, Result, ok, err, String, List, Option,
}

pub data QuotationError : Type 0 where
  quotation_not_found : QuotationError
  restricted_product : QuotationError
  unsupported_currency : QuotationError
  invalid_quotation_input : QuotationError
  extraction_unavailable : QuotationError
  unsafe_product_url : QuotationError
  exchange_unavailable : QuotationError
  quotation_conflict : QuotationError
  -- any other error: of the database, of another service
  internal : QuotationError

pub data Status : Type 0 where
  pending_confirmation : Status
  confirmed : Status
  expired : Status
  rejected : Status

-- `Quotation`; `ConfirmedOrderID` is in the table only.
pub record Quotation : Type 0 where
  pub id : String
  pub customer_id : String
  pub product_url : String
  pub product_name : String
  pub image_url : String
  pub source_price_micros : ℤ
  pub currency : String
  pub quantity : ℤ
  pub exchange_rate : ℤ
  pub product_amount_vnd : ℤ
  pub service_fee_vnd : ℤ
  pub estimated_shipping_fee : ℤ
  pub total_amount_vnd : ℤ
  pub status : Status
  pub created_at : ℕ
  pub updated_at : ℕ

-- A row of the table quotations
pub record QuotationRow : Type 0 where
  pub id : Uuid
  pub customer_id : String
  pub product_url : String
  pub product_name : String
  pub image_url : String
  -- the text `source_price::text`
  pub source_price : String
  pub currency : String
  pub quantity : ℤ
  pub exchange_rate : ℤ
  pub product_amount_vnd : ℤ
  pub service_fee_vnd : ℤ
  pub estimated_shipping_fee : ℤ
  pub total_amount_vnd : ℤ
  pub status : Status
  pub created_at : ℕ
  pub updated_at : ℕ
  pub confirmed_order_id : Option Uuid

abbrev pub Db : Type 0
Db = List QuotationRow

abbrev pub source_price_scale : ℕ
source_price_scale = 1000000

abbrev pub estimated_shipping_fee_vnd : ℕ
estimated_shipping_fee_vnd = 120000

-- `big.Int.IsInt64`, of a number that is not negative
abbrev pub is_int64 : ℕ → Bool
is_int64 n = ltb n two63

-- The product, rounded to whole VND.
unfoldable pub product_of : ℕ → ℕ → ℕ → ℕ
product_of price quantity rate =
    (price * quantity * rate + source_price_scale / 2) / source_price_scale

unfoldable pub fee_of : ℕ → ℕ
fee_of amount = (amount * 5 + 50) / 100

-- The check of the sum and the answer, for a product that is an int64.
with_fee : ℕ → ℕ → Result QuotationError (ℤ × ℤ × ℤ)
with_fee amount fee =
    if not (is_int64 fee)
      || ltb_ℤ (sub64 (sub64 (pos (two63 - 1)) (pos fee)) (pos estimated_shipping_fee_vnd))
          (pos amount)
    then err invalid_quotation_input
    else ok
        (pos amount, pos fee, add64 (add64 (pos amount) (pos fee)) (pos estimated_shipping_fee_vnd))

-- `Calculate`
unfoldable pub calculate : ℤ → ℤ → ℤ → Result QuotationError (ℤ × ℤ × ℤ)
unfolding with_fee
calculate price quantity rate =
    if leb_ℤ price (pos 0) || leb_ℤ quantity (pos 0) || leb_ℤ rate (pos 0)
    then err invalid_quotation_input
    else (let amount = product_of (pos_part price) (pos_part quantity) (pos_part rate) in
        if not (is_int64 amount)
        then err invalid_quotation_input
        else with_fee amount (fee_of amount))
