-- ===== src/Admin/Vietcombank.antt =====
-- backend/internal/admin/adapters/vietcombank/provider.go. The mutex makes each call one step. The
-- answers of the HTTP client, encoding/xml, strconv.ParseFloat and time.ParseInLocation are
-- parameters, and so is `time.Now`.
pub mod Cache
pub mod Answers
use Prim.Native.Char.{code}
use cross_border_logistics.Prelude.{
  ℕ, ◌+◌, ◌*◌, ◌/◌, ◌^◌, ℤ, pos, negsuc, String, Bool, true, false, not, ◌&&◌, ◌||◌, Option, none,
  some, List, [], ◌∷◌, leb, ltb, ◌==◌, if◌then◌else◌, two63, Result, ok, err, or_error,
}
use cross_border_logistics.Prelude.Checks.{◌>>=◌, ◌>>◌, fail_if}
use cross_border_logistics.Go.{is_empty, trim_space}
use cross_border_logistics.Event.{Float, finite, nan, infinite}
use cross_border_logistics.Admin.Domain.{
  Rates, rate_of, put, SystemRates, RatesError, missing_rate, fetch_failed, code_of, validate,
}

-- `exchangeRate`
pub record ExchangeRate : Type 0 where
  pub currency : String
  pub sell : String

-- `exchangeRateList`
pub record ExchangeRateList : Type 0 where
  pub date_time : String
  pub rates : List ExchangeRate

-- What is read of texts; `none` is an error.
pub record Readers : Type 0 where
  pub xml : String → Option ExchangeRateList
  pub float : String → Option Float
  -- the layout "1/2/2006 3:04:05 PM" at UTC+7
  pub time : String → Option ℕ
  -- the int64 of a float64 that is too large for one, which Go leaves to the machine
  pub too_large : ℤ

-- An answer of the HTTP client: its status, and its body with the size in bytes.
pub record Answer : Type 0 where
  pub status : ℕ
  pub body : Option String
  pub size : ℕ

abbrev pub max_response_size : ℕ
max_response_size = 1048576

-- `strings.ReplaceAll(s, ",", "")`
unfoldable pub without_commas : String → String
without_commas String.[] = String.[]
without_commas (String.◌∷◌ c s) =
    let rest = without_commas s in if code c == b',' then rest else String.◌∷◌ c rest

-- `int64(math.Round(x))` of a positive number: half is rounded up.
unfoldable pub rounded : Readers → Float → Option ℤ
rounded rd (finite (pos m) k) =
    if m == 0
    then none
    else (let n = (2 * m + 2 ^ k) / 2 ^ (k + 1) in
        if ltb n two63 then some (pos n) else some rd.too_large)
rounded rd _ = none

-- `parseSellRate`
unfoldable pub parse_sell_rate : Readers → String → Option ℤ
unfolding without_commas rounded
parse_sell_rate rd value = elim (rd.float (without_commas (trim_space value))) [
  | none ↦ none
  | some x ↦ rounded rd x
]

module _ (rd : Readers) (to_upper : String → String) where
  available_with : Rates → ExchangeRate → Rates
  available_with rates item =
      if is_empty (code_of to_upper item.currency)
      then rates
      else elim (parse_sell_rate rd item.sell) [
        | none ↦ rates
        | some rate ↦ put (code_of to_upper item.currency) rate rates
      ]

  -- The rates that could be read; of several for one currency the last one holds.
  unfoldable pub available : List ExchangeRate → Rates → Rates
  unfolding available_with
  available [] rates = rates
  available (item ∷ items) rates = available items (available_with rates item)

  -- The rates of the currencies that are asked for.
  unfoldable pub select : Rates → List String → Rates → Result RatesError Rates
  select found [] selected = ok selected
  select found (currency ∷ currencies) selected = do
    let code = code_of to_upper currency
    rate ← or_error (rate_of code found) (missing_rate code)
    select found currencies (put code rate selected)

  -- `fetch`, with what the client answers
  unfoldable pub fetch : Option Answer → List String → ℕ → Result RatesError (Rates × ℕ)
  unfolding available select
  fetch answer currencies now = do
    response ← or_error answer fetch_failed
    fail_if (ltb response.status 200 || leb 300 response.status) fetch_failed
    body ← or_error response.body fetch_failed
    fail_if (ltb max_response_size response.size) fetch_failed
    payload ← or_error (rd.xml body) fetch_failed
    selected ← select (available payload.rates []) currencies []
    ok (
      selected,
      elim (rd.time (trim_space payload.date_time)) as (λ x. ℕ) [ none ↦ now | some t ↦ t ],
    )

-- `Provider`: `hasCache` with `cached`, `expiresAt` and `lastErr`
pub record Provider : Type 0 where
  pub cached : Option SystemRates
  pub expires_at : ℕ
  pub last_err : Option RatesError

abbrev pub new_provider : Provider
new_provider = record { cached = none; expires_at = 0; last_err = none }

-- What answers a call before the cache expires: the cache, or the last error if there is none.
unfoldable pub remembered : Provider → Option (Result RatesError SystemRates)
remembered p = elim p.cached [
  | some rates ↦ some (ok rates)
  | none ↦ elim p.last_err [ none ↦ none | some e ↦ some (err e) ]
]

-- What a call finds outside: the time, the base provider's rates and the client's answer.
pub record Outside : Type 0 where
  pub now : ℕ
  pub base : Result RatesError SystemRates
  pub answer : Option Answer

-- The base rates with the fetched ones in them.
unfoldable pub live_rates : SystemRates → Rates × ℕ → SystemRates
live_rates base (rates, at) = record base { exchange_rates = rates; effective_at = at }

-- After a fetch that has failed
unfoldable pub after_failure :
    ℕ → ℕ → RatesError → Provider → Result RatesError SystemRates × Provider
after_failure ttl now e p = elim p.cached [
  | some rates ↦ (ok rates, record p { expires_at = now + ttl })
  | none ↦ (err e, record p { expires_at = now + ttl; last_err = some e })
]

-- After a fetch that has succeeded
unfoldable pub after_fetch :
    (String → String) → ℕ → ℕ → SystemRates → Provider → Result RatesError SystemRates × Provider
unfolding validate
after_fetch to_upper ttl now rates p = elim (validate to_upper rates) [
  | err e ↦ (err e, p)
  | ok checked ↦ (ok rates, record { cached = some rates; expires_at = now + ttl; last_err = none })
]

module _ (rd : Readers) (to_upper : String → String) (ttl : ℕ) where
  -- The call beyond the cache.
  unfoldable pub refresh : Outside → Provider → Result RatesError SystemRates × Provider
  unfolding after_failure after_fetch live_rates
  refresh o p = elim o.base [
    | err e ↦ (err e, p)
    | ok base ↦ elim (fetch rd to_upper o.answer base.supported_currencies o.now) [
      | err e ↦ after_failure ttl o.now e p
      | ok live ↦ after_fetch to_upper ttl o.now (live_rates base live) p
    ]
  ]

  -- `GetSystemRates`
  unfoldable pub get_system_rates : Outside → Provider → Result RatesError SystemRates × Provider
  unfolding refresh remembered
  get_system_rates o p =
      let beyond = refresh o p in
      if ltb o.now p.expires_at
      then elim (remembered p) [ none ↦ beyond | some r ↦ (r, p) ]
      else beyond

  -- Calls one after the other, and their answers.
  unfoldable pub calls : List Outside → Provider → List (Result RatesError SystemRates)
  calls [] p = []
  calls (o ∷ os) p = let (r, p') = get_system_rates o p in r ∷ calls os p'
