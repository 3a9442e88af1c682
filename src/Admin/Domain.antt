-- ===== src/Admin/Domain.antt =====
-- backend/internal/admin/domain/rates.go. A map from currencies to rates is a list of entries with
-- different keys, whose order stands for the one in which Go iterates; strings.ToUpper is a parameter.
use cross_border_logistics.Prelude.{
  ℕ, ℤ, pos, String, Bool, true, false, not, ◌||◌, Option, none, some, List, [], ◌∷◌, str_eq, leb_ℤ,
  ltb_ℤ, if◌then◌else◌, Result, ok, or_error,
}
use cross_border_logistics.Prelude.Checks.{◌>>=◌, ◌>>◌, fail_if}
use cross_border_logistics.Go.{is_empty, trim_space}

abbrev pub Rates : Type 0
Rates = List (String × ℤ)

unfoldable pub rate_of : String → Rates → Option ℤ
rate_of code [] = none
rate_of code ((k, rate) ∷ rates) =
    let rest = rate_of code rates in if str_eq k code then some rate else rest

-- `rates[code] = rate`
unfoldable pub put : String → ℤ → Rates → Rates
put code rate [] = (code, rate) ∷ []
put code rate ((k, old) ∷ rates) =
    let rest = put code rate rates in
    if str_eq k code then (code, rate) ∷ rates else (k, old) ∷ rest

pub record SystemRates : Type 0 where
  pub service_fee_percent : ℤ
  pub estimated_shipping_fee_vnd : ℤ
  pub deposit_percent : ℤ
  pub supported_currencies : List String
  pub exchange_rates : Rates
  pub effective_at : ℕ

-- What is wrong with rates, or with the sources that they come from.
pub data RatesError : Type 0 where
  bad_service_fee : RatesError
  bad_deposit : RatesError
  bad_shipping_fee : RatesError
  no_currencies : RatesError
  empty_currency : RatesError
  missing_rate : String → RatesError
  bad_rate : String → RatesError
  bad_variable : String → RatesError
  fetch_failed : RatesError
  source_failed : RatesError

-- A percentage.
abbrev pub is_percent : ℤ → Bool
is_percent n = not (ltb_ℤ n (pos 0) || ltb_ℤ (pos 100) n)

abbrev pub no_items : List String → Bool
no_items [] = true
no_items _ = false

-- `strings.ToUpper(strings.TrimSpace(currency))`
abbrev pub code_of : (String → String) → String → String
code_of to_upper currency = to_upper (trim_space currency)

module _ (to_upper : String → String) where
  -- The check of one currency.
  unfoldable pub check_currency : Rates → String → Result RatesError (Unit {0})
  check_currency rates currency = do
    let code = code_of to_upper currency
    fail_if (is_empty code) empty_currency
    rate ← or_error (rate_of code rates) (missing_rate code)
    fail_if (leb_ℤ rate (pos 0)) (bad_rate code)
    ok tt

  unfoldable pub check_currencies : Rates → List String → Result RatesError (Unit {0})
  unfolding check_currency
  check_currencies rates [] = ok tt
  check_currencies rates (currency ∷ currencies) = do
    checked ← check_currency rates currency
    check_currencies rates currencies

  -- `Validate`
  unfoldable pub validate : SystemRates → Result RatesError (Unit {0})
  unfolding check_currencies
  validate r = do
    fail_if (not (is_percent r.service_fee_percent)) bad_service_fee
    fail_if (not (is_percent r.deposit_percent)) bad_deposit
    fail_if (ltb_ℤ r.estimated_shipping_fee_vnd (pos 0)) bad_shipping_fee
    fail_if (no_items r.supported_currencies) no_currencies
    check_currencies r.exchange_rates r.supported_currencies
