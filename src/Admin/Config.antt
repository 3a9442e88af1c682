-- ===== src/Admin/Config.antt =====
-- backend/internal/admin/adapters/config/provider.go. The environment is the parameter `lookup`.
pub mod Loaded
use Prim.Native.String.{◌++◌ as append}
use cross_border_logistics.Prelude.{
  ℕ, ℤ, pos, String, Option, none, some, List, [], ◌∷◌, Result, ok, err, or_error,
}
use cross_border_logistics.Prelude.Checks.{◌>>=◌, ◌>>◌}
use cross_border_logistics.Go.{trim_space, split_on}
use cross_border_logistics.Go.Numbers.{parse_int, format_int}
use cross_border_logistics.Admin.Domain.{
  Rates, rate_of, put, SystemRates, RatesError, bad_variable, validate,
}
use cross_border_logistics.Admin.Currencies.{distinct_codes}

-- `LookupFunc`
abbrev pub Lookup : Type 0
Lookup = String → Option String

-- `defaultExchangeRates`
abbrev pub default_exchange_rates : Rates
default_exchange_rates =
    ("USD", pos 26000) ∷ ("CNY", pos 3600) ∷ ("JPY", pos 175) ∷ ("KRW", pos 19) ∷ []

-- `raw`
unfoldable pub raw : Lookup → String → String → String
raw lookup name fallback = elim (lookup name) [ none ↦ fallback | some value ↦ trim_space value ]

-- `integer` and `integer64`
unfoldable pub integer : Lookup → String → ℤ → Result RatesError ℤ
unfolding raw
integer lookup name fallback =
    or_error (parse_int (raw lookup name (format_int fallback))) (bad_variable name)

-- `split`
unfoldable pub split : (String → String) → String → List String
split to_upper value = distinct_codes to_upper [] (split_on b',' value)

abbrev pub rate_variable : String → String
rate_variable currency = append "ADMIN_EXCHANGE_RATE_" currency

-- The text of the rate of a currency: the variable's, or that of the default, if there is one.
unfoldable pub rate_text : Lookup → String → Option String
rate_text lookup currency = elim (lookup (rate_variable currency)) [
  | some value ↦ some value
  | none ↦ elim (rate_of currency default_exchange_rates) [
    | none ↦ none
    | some rate ↦ some (format_int rate)
  ]
]

-- The loop over the currencies; one without a rate is left out.
unfoldable pub read_rates : Lookup → List String → Rates → Result RatesError Rates
unfolding rate_text
read_rates lookup [] rates = ok rates
read_rates lookup (currency ∷ currencies) rates = elim (rate_text lookup currency) [
  | none ↦ read_rates lookup currencies rates
  | some text ↦ elim (parse_int (trim_space text)) [
    | none ↦ err (bad_variable (rate_variable currency))
    | some rate ↦ read_rates lookup currencies (put currency rate rates)
  ]
]

-- `Load`, the rates of the provider that it makes; `GetSystemRates` answers a copy of them
unfoldable pub load : (String → String) → Lookup → ℕ → Result RatesError SystemRates
unfolding integer split read_rates raw
load to_upper lookup effective_at = do
  service_fee ← integer lookup "ADMIN_SERVICE_FEE_PERCENT" (pos 5)
  shipping_fee ← integer lookup "ADMIN_ESTIMATED_SHIPPING_FEE_VND" (pos 120000)
  deposit ← integer lookup "ADMIN_DEPOSIT_PERCENT" (pos 70)
  let currencies = split to_upper (raw lookup "ADMIN_SUPPORTED_CURRENCIES" "USD,CNY,JPY,KRW")
  rates ← read_rates lookup currencies []
  let snapshot : SystemRates = record {
    service_fee_percent = service_fee;
    estimated_shipping_fee_vnd = shipping_fee;
    deposit_percent = deposit;
    supported_currencies = currencies;
    exchange_rates = rates;
    effective_at = effective_at;
  }
  checked ← validate to_upper snapshot
  ok snapshot
