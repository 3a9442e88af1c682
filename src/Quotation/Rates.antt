-- ===== src/Quotation/Rates.antt =====
-- backend/internal/quotation/adapters/admin_rates.go, http_rates.go and mock.go: where the quotation
-- service gets its exchange rates. The HTTP client, encoding/json and package strings are parameters.
use Prim.Native.String.{◌++◌ as append}
use cross_border_logistics.Prelude.{
  ℕ, ℤ, pos, String, Bool, not, ◌&&◌, Option, none, some, List, [], ◌∷◌, any, take, leb, ltb, ◌==◌,
  ltb_ℤ, leb_ℤ, if◌then◌else◌, Result, ok, err, or_error,
}
use cross_border_logistics.Prelude.Checks.{◌>>=◌, ◌>>◌, fail_if}
use cross_border_logistics.Go.{trim_space}
use cross_border_logistics.Admin.Domain.{Rates, rate_of}
use cross_border_logistics.Quotation.Domain.{
  QuotationError, unsupported_currency, exchange_unavailable,
}

-- An answer of the HTTP client.
pub record Reply : Type 0 where
  pub status : ℕ
  pub body : String

abbrev is_success : ℕ → Bool
is_success status = leb 200 status && ltb status 300

-- `Rate` of AdminHTTPExchangeRates; `rates_in` reads the rates of a body
unfoldable pub admin_rate :
    (String → String) → (String → Option Rates) → Option Reply → String → Result QuotationError ℤ
admin_rate to_upper rates_in reply currency = do
  answer ← or_error reply exchange_unavailable
  fail_if (not (is_success answer.status)) exchange_unavailable
  rates ← or_error (rates_in answer.body) exchange_unavailable
  rate ← or_error (rate_of (to_upper (trim_space currency)) rates) unsupported_currency
  fail_if (leb_ℤ rate (pos 0)) exchange_unavailable
  ok rate

-- One attempt: the reply, if there is one, and whether the context ends in the pause behind it.
pub record Attempt : Type 0 where
  pub reply : Option Reply
  pub cancelled : Bool

abbrev positive_rate : Option ℤ → Result QuotationError ℤ
positive_rate none = err exchange_unavailable
positive_rate (some rate) = if ltb_ℤ (pos 0) rate then ok rate else err exchange_unavailable

-- The answer that a reply decides, or `none` for another attempt; `rate_in` reads the rate of a body.
unfoldable pub decided : (String → Option ℤ) → Reply → Option (Result QuotationError ℤ)
decided rate_in reply =
    if is_success reply.status
    then some (positive_rate (rate_in reply.body))
    else if leb 400 reply.status && ltb reply.status 500 && not (reply.status == 429)
    then some (err unsupported_currency)
    else none

unfoldable pub attempts : (String → Option ℤ) → List Attempt → Result QuotationError ℤ
unfolding decided
attempts rate_in [] = err exchange_unavailable
attempts rate_in (a ∷ rest) =
    let again = if a.cancelled then err exchange_unavailable else attempts rate_in rest in
    elim a.reply [
      | none ↦ again
      | some reply ↦ elim (decided rate_in reply) [ none ↦ again | some answer ↦ answer ]
    ]

-- `Rate` of HTTPExchangeRates, with three attempts
unfoldable pub http_rate : (String → Option ℤ) → List Attempt → Result QuotationError ℤ
unfolding attempts
http_rate rate_in all = attempts rate_in (take 3 all)

-- `Rate` of MockExchangeRates
unfoldable pub mock_rate : (String → String) → String → Result QuotationError ℤ
mock_rate to_upper currency =
    or_error
      (rate_of (to_upper currency)
        (("USD", pos 26000) ∷ ("CNY", pos 3600) ∷ ("JPY", pos 175) ∷ ("KRW", pos 19) ∷ []))
      unsupported_currency

-- `IsRestricted` of MockRestrictionChecker, with strings.ToLower and strings.Contains
unfoldable pub is_restricted : (String → String) → (String → String → Bool) → String → String → Bool
is_restricted to_lower contains name url =
    let value = to_lower (append name (append " " url)) in
    any (contains value)
      ("weapon" ∷ "gun" ∷ "explosive" ∷ "battery-liquid" ∷ "dangerous-chemical" ∷ [])
