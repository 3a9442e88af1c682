-- ===== src/Quotation/Price.antt =====
-- `ParseSourcePrice` and `FormatSourcePrice` of backend/internal/quotation/domain/quotation.go.
pub mod Digits
pub mod RoundTrip
use Prim.Native.String.{◌++◌ as append}
use Prim.Native.Char.{code}
use cross_border_logistics.Prelude.{
  ℕ, zero, suc, ◌+◌, ◌-◌, ◌*◌, ◌/◌, ◌%◌, ℤ, pos, negsuc, String, Bool, true, false, ◌&&◌, ◌||◌,
  Option, none, some, ◌==◌, leb, ltb, if◌then◌else◌, leb_ℤ, ltb_ℤ, eq_ℤ, add64, sub64, mul64,
  quot64, rem64, two63, sub_ℕ, Result, ok, or_error,
}
use cross_border_logistics.Prelude.Checks.{◌>>=◌, ◌>>◌, fail_if}
use cross_border_logistics.Go.{is_empty, trim_space}
use cross_border_logistics.Quotation.Domain.{
  QuotationError, invalid_quotation_input, source_price_scale,
}
use cross_border_logistics.Go.Numbers.{parse_int, before_dot, after_dot, last_digits, format_int}

abbrev starts_with : ℕ → String → Bool
starts_with k String.[] = false
starts_with k (String.◌∷◌ c s) = code c == k

-- A fraction made up to six digits with zeros; `none` if it is longer. A text beyond ASCII is counted
-- by characters and not by bytes, but it is refused as a number in any case.
unfoldable pub pad : ℕ → String → Option String
pad zero String.[] = some ""
pad zero (String.◌∷◌ c s) = none
pad (suc n) String.[] = elim (pad n String.[]) [ none ↦ none | some r ↦ some (append "0" r) ]
pad (suc n) (String.◌∷◌ c s) = elim (pad n s) [ none ↦ none | some r ↦ some (String.◌∷◌ c r) ]

-- The fraction's text: `none` where there is a second dot.
unfoldable pub fraction_of : Option String → Option String
unfolding after_dot
fraction_of none = some ""
fraction_of (some s) = elim (after_dot s) [ none ↦ some s | some t ↦ none ]

-- `ParseSourcePrice`
unfoldable pub parse_source_price : String → Result QuotationError ℤ
unfolding before_dot after_dot fraction_of pad parse_int
parse_source_price text = do
  let raw = trim_space text
  fail_if (is_empty raw || starts_with b'-' raw) invalid_quotation_input
  fraction ← or_error (fraction_of (after_dot raw)) invalid_quotation_input
  fail_if (is_empty (before_dot raw)) invalid_quotation_input
  padded ← or_error (pad 6 fraction) invalid_quotation_input
  whole ← or_error (parse_int (before_dot raw)) invalid_quotation_input
  frac ← or_error (parse_int padded) invalid_quotation_input
  fail_if (ltb_ℤ (quot64 (sub64 (pos (two63 - 1)) frac) (pos source_price_scale)) whole)
      invalid_quotation_input
  let value = add64 (mul64 whole (pos source_price_scale)) frac
  fail_if (leb_ℤ value (pos 0)) invalid_quotation_input
  ok value

-- `strings.TrimRight(s, "0")`
unfoldable pub trim_zeros : String → String
trim_zeros String.[] = String.[]
trim_zeros (String.◌∷◌ c s) =
    let rest = trim_zeros s in
    if is_empty rest && code c == b'0' then String.[] else String.◌∷◌ c rest

-- `%06d` of a number below 10 ^ 6, whose width counts the sign
abbrev six : ℤ → String
six (pos n) = last_digits 6 n
six (negsuc n) = append "-" (last_digits (if ltb (suc n) 100000 then 5 else 6) (suc n))

-- `FormatSourcePrice`
unfoldable pub format_source_price : ℤ → String
unfolding format_int last_digits trim_zeros
format_source_price value =
    let whole = quot64 value (pos source_price_scale) in
    let fraction = rem64 value (pos source_price_scale) in
    if eq_ℤ fraction (pos 0)
    then format_int whole
    else append (format_int whole) (append "." (trim_zeros (six fraction)))
