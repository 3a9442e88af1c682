-- ===== src/Payment/Http/Callbacks/Amounts.antt =====
-- The amounts of the payment gateway: what is printed is read.
use Prim.Native.Char.{code}
use Prim.Native.String.{◌++◌ as append}
use Prim.Native.String.append.{cons}
use cross_border_logistics.Prelude.{
  ℕ, ◌<◌, ◌*◌, ◌+◌, ◌-◌, pos, String, true, false, some, ◌≡◌, refl, arith, two63,
}
use cross_border_logistics.Go.{is_empty}
use cross_border_logistics.Go.Trim.{unspaced, unspaced-append, trim_space-unspaced}
use cross_border_logistics.Go.Numbers.{digits, decimal, format_int}
use cross_border_logistics.Go.Numbers.Digits.{
  digits-decimal, digits-unspaced, before_dot-digits, after_dot-digits, no_dot, not_empty,
  chars-decimal, parse_int-digits, dotted,
}
use cross_border_logistics.Payment.Http.Callbacks.{
  Wire, is_quoted, all_zeros, no_fraction, whole_amount, parse_sepay_pg_amount,
}

digits-unquoted :
    (s t : String) (m : ℕ)
    → digits s 0 ≡ some m
    → is_empty s ≡ false
    → is_quoted (append s t) ≡ false
unfolding digits is_quoted
digits-unquoted String.[] t m h e = cc
digits-unquoted (String.◌∷◌ c s) t m h e = rw cons (ground arith)

all_zeros-digits : (s : String) (k : ℕ) → all_zeros s ≡ true → (m : ℕ) × (digits s k ≡ some m)
unfolding digits all_zeros
all_zeros-digits String.[] k h = (k, refl)
all_zeros-digits (String.◌∷◌ c s) k h =
    let rest = all_zeros-digits s (k * 10 + (code c - b'0')) (ground arith) in
    (rest.0, ground (arith, rest.1))

-- An amount in VND of a positive int64, printed with a dot and any number of zeros behind it, is
-- read as this amount.
pub parse_sepay_pg_amount-format_int :
    (w : Wire) (v : ℕ) (zeros : String)
    → 0 < v
    → v < two63
    → all_zeros zeros ≡ true
    → parse_sepay_pg_amount w (append (format_int (pos v)) (append "." zeros)) ≡ some (pos v)
unfolding format_int parse_sepay_pg_amount whole_amount no_fraction
parse_sepay_pg_amount-format_int w v zeros positive small h =
    let s = decimal 18 v in
    let number : digits s 0 ≡ some v = digits-decimal 18 v (omega arith) in
    let some_digits : is_empty s ≡ false = not_empty s (chars-decimal 18 v (omega arith)) in
    let fraction = all_zeros-digits zeros 0 h in
    let text = append s (append "." zeros) in
    let spaces : unspaced text ≡ true =
      unspaced-append s (append "." zeros) (digits-unspaced s 0 v number)
        (dotted zeros 0 fraction.0 fraction.1) in
    ground (
      arith,
      trim_space-unspaced text spaces,
      digits-unquoted s (append "." zeros) v number some_digits,
      after_dot-digits s zeros 0 v number,
      before_dot-digits s zeros 0 v number,
      no_dot zeros 0 fraction.0 fraction.1,
      parse_int-digits s v number some_digits small,
    )
