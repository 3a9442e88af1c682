-- ===== src/Quotation/Http.antt =====
-- backend/internal/quotation/adapters/http/handler.go. The service is a record of operations on a
-- state. The handler `create` is not modelled: `New` registers no route for it.
use cross_border_logistics.Prelude.{String, Result, ok, err}
use cross_border_logistics.Http.{
  Response, success, failure, Body, refused, followed, one_value, validation_error, not_found,
  internal_error, internal_message,
}
use cross_border_logistics.Quotation.Domain.{
  QuotationError, quotation_not_found, restricted_product, unsupported_currency,
  invalid_quotation_input, extraction_unavailable, unsafe_product_url, exchange_unavailable,
  quotation_conflict, internal,
}
use cross_border_logistics.Quotation.Service.{ExtractInput, View, Snapshot}

-- `Service`, but for `Create`
pub record Service (S : Type 0) : Type 0 where
  pub extract : ExtractInput → S → Result QuotationError View × S
  pub get : String → S → Result QuotationError View
  pub get_snapshot : String → S → Result QuotationError Snapshot
  pub confirm : String → String → S → Result QuotationError Snapshot × S

-- The data of an answer.
pub data Shown : Type 0 where
  health : Shown
  view : View → Shown
  snapshot : Snapshot → Shown

-- `writeError`
unfoldable pub write_error : QuotationError → Response Shown
write_error restricted_product = failure 400 "RESTRICTED_ITEM" "product is restricted"
write_error unsafe_product_url = failure 400 "UNSAFE_PRODUCT_URL" "product URL is not allowed"
write_error extraction_unavailable =
    failure 502 "PRODUCT_EXTRACTION_UNAVAILABLE" "product could not be extracted"
write_error exchange_unavailable =
    failure 502 "EXCHANGE_RATE_UNAVAILABLE" "exchange rate provider is unavailable"
write_error quotation_conflict =
    failure 409 "QUOTATION_ALREADY_CONFIRMED" "quotation is reserved by another order"
write_error unsupported_currency = failure 400 validation_error "currency is not supported"
write_error invalid_quotation_input = failure 400 validation_error "quotation input is invalid"
write_error quotation_not_found = failure 404 not_found "quotation was not found"
write_error internal = failure 500 internal_error internal_message

answer : {S A : Type 0} → (A → Shown) → Result QuotationError A × S → Response Shown × S
answer show (ok a, s) = (success 200 (show a), s)
answer show (err e, s) = (write_error e, s)

-- A body that is no JSON object, or is followed by more: `ensureEOF`
not_one_object : Response Shown
not_one_object = failure 400 validation_error "request body must be one valid JSON object"

-- A request with a method and path that `New` registers; a confirmation names its order in the body.
pub data Request : Type 0 where
  ask_health : Request
  post_extract : Body ExtractInput → Request
  ask_quotation : String → Request
  ask_snapshot : String → Request
  post_confirm : String → Body String → Request

module _ {S : Type 0} (service : Service S) where
  -- `extract`
  unfoldable pub extract_quotation : Body ExtractInput → S → Response Shown × S
  unfolding answer not_one_object
  extract_quotation refused s = (not_one_object, s)
  extract_quotation followed s = (not_one_object, s)
  extract_quotation (one_value input) s = answer view (service.extract input s)

  -- `confirm`
  unfoldable pub confirm_quotation : String → Body String → S → Response Shown × S
  unfolding answer not_one_object
  confirm_quotation id refused s = (not_one_object, s)
  confirm_quotation id followed s = (not_one_object, s)
  confirm_quotation id (one_value order_id) s = answer snapshot (service.confirm id order_id s)

  -- `New` with `get` and `snapshot`
  unfoldable pub serve : Request → S → Response Shown × S
  unfolding extract_quotation confirm_quotation answer
  serve ask_health s = (success 200 health, s)
  serve (post_extract body) s = extract_quotation body s
  serve (ask_quotation id) s = answer view (service.get id s, s)
  serve (ask_snapshot id) s = answer snapshot (service.get_snapshot id s, s)
  serve (post_confirm id body) s = confirm_quotation id body s
