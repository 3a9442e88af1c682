-- ===== src/Tests/Admin.antt =====
-- The admin service on concrete inputs.
use cross_border_logistics.Prelude.{
  ℕ, pos, String, Bool, true, false, ◌||◌, none, some, [], ◌∷◌, ◌≡◌, ◌⊎◌, refl, arith, str_eq, any,
  All, if◌then◌else◌, ok, err,
}
use cross_border_logistics.Go.{trim_space, split_on}
use cross_border_logistics.Go.Numbers.{parse_int, format_int}
use cross_border_logistics.Event.{finite}
use cross_border_logistics.Admin.Domain.{
  SystemRates, bad_rate, code_of, validate, check_currency, rate_of, put,
}
use cross_border_logistics.Admin.Currencies.{distinct_codes}
use cross_border_logistics.Admin.Config.{Lookup, load, integer, raw, split, read_rates, rate_text}
use cross_border_logistics.Admin.Config.Loaded.{load-valid}
use cross_border_logistics.Admin.Service.{execute}
use cross_border_logistics.Admin.Vietcombank.{
  parse_sell_rate, Readers, Provider, new_provider, Outside, get_system_rates, calls, fetch,
}
use cross_border_logistics.Admin.Vietcombank.Cache.{AnswersValid}
use cross_border_logistics.Admin.Vietcombank.Answers.{
  IsInvalid, calls-AnswersValid, answer_kept, cached_answers,
}

-- Upper case, for the one currency there is.
to_upper : String → String
to_upper s = if str_eq s "usd" || str_eq s "USD" then "USD" else ""

again : (s : String) → code_of to_upper (code_of to_upper s) ≡ code_of to_upper s
unfolding to_upper trim_space
again s = either (str_eq (trim_space s) "usd" || str_eq (trim_space s) "USD")
  where
    either : (b : Bool) → code_of to_upper (if b then "USD" else "") ≡ (if b then "USD" else "")
    either true = refl
    either false = refl

abbrev lookup : Lookup
lookup name = if str_eq name "ADMIN_SUPPORTED_CURRENCIES" then some " usd ,USD" else none

abbrev loaded : SystemRates
loaded = record {
  service_fee_percent = pos 5;
  estimated_shipping_fee_vnd = pos 120000;
  deposit_percent = pos 70;
  supported_currencies = "USD" ∷ [];
  exchange_rates = ("USD", pos 26000) ∷ [];
  effective_at = 9;
}

load_run : load to_upper lookup 9 ≡ ok loaded
unfolding load integer raw split split_on distinct_codes any read_rates rate_text parse_int
    format_int trim_space to_upper rate_of put validate check_currency
load_run = refl

load-valid_example :
    (r : SystemRates) × (execute to_upper (ok loaded) ≡ ok r) × (validate to_upper r ≡ ok tt)
load-valid_example = load-valid to_upper again lookup 9 loaded load_run

-- The bank sells at 26000.5, and at 0.25 in the answer that is called low.
abbrev readers : Readers
readers = record {
  xml = λ s.
      if str_eq s "down"
      then none
      else some (record { date_time = ""; rates = record { currency = "USD"; sell = s } ∷ [] });
  float = λ s. if str_eq s "low" then some (finite (pos 1) 2) else some (finite (pos 52001) 1);
  time = λ s. none;
  too_large = pos 0;
}

abbrev at_time : ℕ → String → Outside
at_time now body = record {
  now = now;
  base = ok loaded;
  answer = some (record { status = 200; body = some body; size = 10 });
}

calls-AnswersValid_example : All (AnswersValid readers to_upper 300) (
    calls readers to_upper 300
      (at_time 1 "26,000.5" ∷ at_time 2 "down" ∷ at_time 400 "low" ∷ [])
      new_provider)
calls-AnswersValid_example =
    calls-AnswersValid readers to_upper 300
      (at_time 1 "26,000.5" ∷ at_time 2 "down" ∷ at_time 400 "low" ∷ [])

abbrev live : SystemRates
live = record loaded { exchange_rates = ("USD", pos 26001) ∷ []; effective_at = 1 }

abbrev filled : Provider
filled = record { cached = some live; expires_at = 301; last_err = none }

first_run :
    get_system_rates readers to_upper 300 (at_time 1 "26,000.5") new_provider ≡ (ok live, filled)
unfolding get_system_rates to_upper fetch rate_of trim_space parse_sell_rate put
first_run = refl

answer_kept_example :
    get_system_rates readers to_upper 300 (at_time 300 "down") filled ≡ (ok live, filled)
answer_kept_example =
    answer_kept readers to_upper 300 (at_time 1 "26,000.5") (at_time 300 "down") new_provider filled
      live first_run (omega arith)

-- A price that rounds to 0 is refused, although there are rates in the cache.
low_run :
    get_system_rates readers to_upper 300 (at_time 400 "low") filled
    ≡ (err (bad_rate "USD"), filled)
unfolding get_system_rates to_upper fetch rate_of trim_space parse_sell_rate put
low_run = refl

cached_answers_example :
    (((at_time 400 "low").base ≡ err (bad_rate "USD"))
      ⊎ IsInvalid readers to_upper 300 (at_time 400 "low") (bad_rate "USD"))
    × (filled ≡ filled)
cached_answers_example =
    cached_answers readers to_upper 300 (at_time 400 "low") filled filled live (bad_rate "USD") refl
      low_run
