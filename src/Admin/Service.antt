-- ===== src/Admin/Service.antt =====
-- backend/internal/admin/application/service.go.
pub mod Answer
use cross_border_logistics.Prelude.{
  ℤ, String, Bool, List, [], ◌∷◌, sort_by, Result, ok, err, str_leb,
}
use cross_border_logistics.Admin.Domain.{Rates, put, SystemRates, RatesError, code_of}
use cross_border_logistics.Admin.Currencies.{distinct_codes}

module _ (to_upper : String → String) where
  -- The rates under the codes of their currencies, behind those that are there.
  unfoldable pub under_codes : Rates → Rates → Rates
  under_codes [] rates = rates
  under_codes ((currency, rate) ∷ entries) rates =
      under_codes entries (put (code_of to_upper currency) rate rates)

  -- What `Execute` makes of rates.
  unfoldable pub normalised : SystemRates → SystemRates
  unfolding under_codes
  normalised r = record r {
    supported_currencies = sort_by str_leb (distinct_codes to_upper [] r.supported_currencies);
    exchange_rates = under_codes r.exchange_rates [];
  }

  -- `Execute`, on the answer of the provider
  unfoldable pub execute : Result RatesError SystemRates → Result RatesError SystemRates
  unfolding normalised
  execute (err e) = err e
  execute (ok r) = ok (normalised r)
