-- ===== src/Tests/Quotation.antt =====
-- The quotation service on concrete inputs.
use Prim.Native.String.{◌++◌ as append}
use cross_border_logistics.Go.{trim_space}
use cross_border_logistics.Go.Numbers.{before_dot, after_dot}
use cross_border_logistics.Tests.World.{letters}
use cross_border_logistics.Quotation.Repository.Confirmation.{confirm_exclusive}
use cross_border_logistics.Quotation.Repository.{up, create, confirm, find_by_id}
use cross_border_logistics.Quotation.Price.{pad, parse_source_price, format_source_price}
use cross_border_logistics.Quotation.Price.RoundTrip.{parse_source_price-format_source_price}
use cross_border_logistics.Prelude.{
  true, pos, ◌≡◌, refl, ok, add64, sub64, ◌*◌, String, Option, none, some, [], ◌∷◌, any, find,
  update_where, count_if, Result, err, mul64, quot64, rem64, arith,
}
use cross_border_logistics.Quotation.Domain.{
  calculate, product_of, fee_of, QuotationError, quotation_conflict, Quotation, QuotationRow, Db,
  pending_confirmation, confirmed,
}
use cross_border_logistics.Quotation.Domain.Amounts.{expected, calculate_exact}

-- Two pieces at 19.99, at 3500 VND each.
calculate_run : calculate (pos 19990000) (pos 2) (pos 3500) ≡ ok (pos 139930, pos 6997, pos 266927)
unfolding calculate product_of fee_of add64 sub64
calculate_run = refl

calculate_exact_example :
    calculate (pos 19990000) (pos 2) (pos 3500) ≡ expected true (19990000 * 2 * 3500)
calculate_exact_example = calculate_exact (pos 19990000) (pos 2) (pos 3500)

abbrev stored : QuotationRow
stored = record {
  id = b'q';
  customer_id = "customer";
  product_url = "https://shop/p";
  product_name = "product";
  image_url = "";
  source_price = "19.990000";
  currency = "USD";
  quantity = pos 2;
  exchange_rate = pos 3500;
  product_amount_vnd = pos 139930;
  service_fee_vnd = pos 6997;
  estimated_shipping_fee = pos 120000;
  total_amount_vnd = pos 266927;
  status = pending_confirmation;
  created_at = 1;
  updated_at = 1;
  confirmed_order_id = none;
}

parse_run : parse_source_price "19.990000" ≡ ok (pos 19990000)
unfolding parse_source_price add64 mul64 sub64 quot64 trim_space
parse_run = refl

format_run : format_source_price (pos 19990000) ≡ "19.99"
unfolding format_source_price quot64 rem64
format_run = refl

abbrev as_stored : String → Option String
as_stored s = some s

abbrev quotation : Quotation
quotation = record {
  id = "q";
  customer_id = "customer";
  product_url = "https://shop/p";
  product_name = "product";
  image_url = "";
  source_price_micros = pos 19990000;
  currency = "USD";
  quantity = pos 2;
  exchange_rate = pos 3500;
  product_amount_vnd = pos 139930;
  service_fee_vnd = pos 6997;
  estimated_shipping_fee = pos 120000;
  total_amount_vnd = pos 266927;
  status = confirmed;
  created_at = 1;
  updated_at = 5;
}

abbrev confirmation : Result QuotationError Quotation × Db
confirmation = confirm letters as_stored up "q" "o" 5 (stored ∷ [])

confirmation_ok : confirmation ≡ (ok quotation, confirmation.1)
unfolding confirm letters any update_where find find_by_id parse_source_price add64 mul64 sub64
    quot64 trim_space
confirmation_ok = refl

confirm_exclusive_example :
    confirm letters as_stored up "q" "p" 9 confirmation.1 ≡ (err quotation_conflict, confirmation.1)
unfolding letters count_if
confirm_exclusive_example =
    confirm_exclusive letters as_stored up up "q" "o" "p" 5 9 b'q' b'o' b'p' (stored ∷ []) quotation
      refl refl refl refl (omega arith) confirmation_ok refl

parse_source_price-format_source_price_example :
    parse_source_price (format_source_price (pos 19990000)) ≡ ok (pos 19990000)
parse_source_price-format_source_price_example =
    parse_source_price-format_source_price 19990000 (omega arith) (omega arith)

-- A column of six decimals: it gives back a text of at most six with zeros behind, and refuses others.
unfoldable fixed_six : String → Option String
unfolding before_dot after_dot pad
fixed_six text = elim (pad 6 (elim (after_dot text) [ none ↦ "" | some f ↦ f ])) [
  | none ↦ none
  | some padded ↦ some (append (before_dot text) (append "." padded))
]

stored_run : fixed_six (format_source_price (pos 19990000)) ≡ some "19.990000"
unfolding fixed_six before_dot after_dot pad format_source_price quot64 rem64
stored_run = refl

abbrev new_quotation : Quotation
new_quotation = record quotation { status = pending_confirmation; updated_at = 1 }

abbrev stored_db : Db
stored_db = (create letters fixed_six up new_quotation []).1
