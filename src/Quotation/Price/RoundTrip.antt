-- ===== src/Quotation/Price/RoundTrip.antt =====
-- A price that is printed is read back.
use Prim.Native.String.{◌++◌ as append}
use Prim.Native.String.append.{cons}
use cross_border_logistics.Prelude.{
  ℕ, zero, suc, ◌-◌, ◌/◌, ◌%◌, ◌<◌, pos, String, false, some, ◌≡◌, refl, arith, ◌∙◌, ltb_ℤ, eq_ℤ,
  two63, quot64, rem64, sub64, add64, mul64, wrap64, Bool-cases, inl, inr, ok, ◌==◌, subst,
  Option-cases,
}
use cross_border_logistics.Go.{is_empty}
use cross_border_logistics.Go.Trim.{unspaced-append, trim_space-unspaced}
use cross_border_logistics.Quotation.Domain.{source_price_scale}
use cross_border_logistics.Go.Numbers.{digits, decimal, last_digits, parse_int, format_int}
use cross_border_logistics.Quotation.Price.{
  trim_zeros, pad, fraction_of, starts_with, parse_source_price, format_source_price,
}
use cross_border_logistics.Quotation.Price.Digits.{trimmed, pad-trim_zeros}
use cross_border_logistics.Go.Numbers.Digits.{
  digits-decimal, digits-last_digits, digits-unspaced, before_dot-digits, after_dot-digits, no_dot,
  all_before_dot, chars, chars-append, chars-last_digits, not_empty, chars-decimal,
  parse_int-digits, dotted,
}

chars-pad : (n : ℕ) (s p : String) → pad n s ≡ some p → chars p ≡ n
unfolding pad
chars-pad zero String.[] p h =
    let same : ◌≡◌ {A = String} "" p = cc in subst (λ x. chars x ≡ 0) same refl
chars-pad zero (String.◌∷◌ c s) p h = cc
chars-pad (suc n) String.[] p h = elim (Option-cases (pad n String.[])) [
  | inl failed ↦ absurd (ground arith)
  | inr (r, e) ↦
      (let same : append "0" r ≡ p = ground arith in
        subst (λ x. chars x ≡ suc n) same
          (omega (arith, chars-append "0" r, chars-pad n String.[] r e)))
]
chars-pad (suc n) (String.◌∷◌ c s) p h = elim (Option-cases (pad n s)) [
  | inl failed ↦ absurd (ground arith)
  | inr (r, e) ↦
      (let same : String.◌∷◌ c r ≡ p = ground arith in
        subst (λ x. chars x ≡ suc n) same (omega (arith, chars-pad n s r e)))
]

no_minus :
    (s t : String) (k m : ℕ)
    → digits s k ≡ some m
    → is_empty s ≡ false
    → starts_with b'-' (append s t) ≡ false
unfolding digits
no_minus String.[] t k m h e = cc
no_minus (String.◌∷◌ c s) t k m h e = rw cons (ground arith)

joined_not_empty : (s t : String) → is_empty s ≡ false → is_empty (append s t) ≡ false
joined_not_empty String.[] t e = cc
joined_not_empty (String.◌∷◌ c s) t e = rw cons refl

-- The last checks, on the numbers of the two parts.
value_fits :
    (v : ℕ)
    → v < two63
    → ltb_ℤ
        (quot64 (sub64 (pos (two63 - 1)) (pos (v % 1000000))) (pos source_price_scale))
        (pos (v / 1000000))
      ≡ false
unfolding quot64 sub64
value_fits v h = ground arith

value_of :
    (v : ℕ)
    → v < two63
    → add64 (mul64 (pos (v / 1000000)) (pos source_price_scale)) (pos (v % 1000000)) ≡ pos v
unfolding add64 mul64
value_of v h = ground arith

-- What is read of digits, a dot and digits.
parse_parts :
    (whole fraction padded : String) (v n : ℕ)
    → v < two63
    → digits whole 0 ≡ some (v / 1000000)
    → is_empty whole ≡ false
    → digits fraction 0 ≡ some n
    → pad 6 fraction ≡ some padded
    → digits padded 0 ≡ some (v % 1000000)
    → 0 < v
    → parse_source_price (append whole (append "." fraction)) ≡ ok (pos v)
unfolding parse_source_price fraction_of
parse_parts whole fraction padded v n small w ne f p d positive =
    let raw = append whole (append "." fraction) in
    let spaces =
      unspaced-append whole (append "." fraction) (digits-unspaced whole 0 (v / 1000000) w)
        (dotted fraction 0 n f) in
    ground (
      arith,
      trim_space-unspaced raw spaces,
      joined_not_empty whole (append "." fraction) ne,
      no_minus whole (append "." fraction) 0 (v / 1000000) w ne,
      after_dot-digits whole fraction 0 (v / 1000000) w,
      before_dot-digits whole fraction 0 (v / 1000000) w,
      no_dot fraction 0 n f,
      parse_int-digits whole (v / 1000000) w ne (omega arith),
      parse_int-digits padded (v % 1000000) d
          (not_empty padded (omega (arith, chars-pad 6 fraction padded p))) (omega arith),
      value_fits v small,
      value_of v small,
    )

no_minus_alone :
    (s : String) (k m : ℕ) → digits s k ≡ some m → is_empty s ≡ false → starts_with b'-' s ≡ false
unfolding digits
no_minus_alone String.[] k m h e = cc
no_minus_alone (String.◌∷◌ c s) k m h e = ground arith

no_fraction : pad 6 "" ≡ some "000000"
unfolding pad
no_fraction = refl

zeros : parse_int "000000" ≡ some (pos 0)
unfolding parse_int digits
zeros = refl

-- What is read of digits alone.
parse_whole :
    (whole : String) (v : ℕ)
    → v < two63
    → digits whole 0 ≡ some (v / 1000000)
    → is_empty whole ≡ false
    → v % 1000000 ≡ 0
    → 0 < v
    → parse_source_price whole ≡ ok (pos v)
unfolding parse_source_price fraction_of
parse_whole whole v small w ne none_left positive = ground (
  arith,
  trim_space-unspaced whole (digits-unspaced whole 0 (v / 1000000) w),
  no_minus_alone whole 0 (v / 1000000) w ne,
  no_dot whole 0 (v / 1000000) w,
  all_before_dot whole 0 (v / 1000000) w,
  no_fraction,
  zeros,
  parse_int-digits whole (v / 1000000) w ne (omega arith),
  value_fits v small,
  value_of v small,
)

quotient : (v : ℕ) → v < two63 → quot64 (pos v) (pos source_price_scale) ≡ pos (v / 1000000)
unfolding quot64 wrap64
quotient v small = ground arith

remainder : (v : ℕ) → rem64 (pos v) (pos source_price_scale) ≡ pos (v % 1000000)
unfolding rem64
remainder v = ground arith

-- What is printed.
format_whole :
    (v : ℕ) → v < two63 → v % 1000000 ≡ 0 → format_source_price (pos v) ≡ decimal 18 (v / 1000000)
unfolding format_source_price format_int
format_whole v small none_left = rw (quotient v small, remainder v, none_left) refl

format_parts :
    (v : ℕ)
    → v < two63
    → 0 < v % 1000000
    → format_source_price (pos v)
      ≡ append (decimal 18 (v / 1000000)) (append "." (trim_zeros (last_digits 6 (v % 1000000))))
unfolding format_source_price format_int
format_parts v small some_left =
    let positive : eq_ℤ (pos (v % 1000000)) (pos 0) ≡ false = ground arith in
    rw (quotient v small, remainder v) (rw positive refl)

-- A positive int64 that is printed as a price is read back.
pub parse_source_price-format_source_price :
    (v : ℕ) → 0 < v → v < two63 → parse_source_price (format_source_price (pos v)) ≡ ok (pos v)
parse_source_price-format_source_price v positive small = elim (Bool-cases (v % 1000000 == 0)) [
  | inl none_left ↦
      rw (format_whole v small (ground arith))
        (parse_whole (decimal 18 (v / 1000000)) v small whole ne (ground arith) positive)
  | inr some_left ↦ rw (format_parts v small (ground arith)) (
      parse_parts (decimal 18 (v / 1000000)) (trim_zeros six) padded.0 v read.0 small whole ne
        read.1 padded.1 (padded.2 0 ∙ fraction) positive)
]
  where
    whole : digits (decimal 18 (v / 1000000)) 0 ≡ some (v / 1000000)
    whole = digits-decimal 18 (v / 1000000) (omega arith)

    ne : is_empty (decimal 18 (v / 1000000)) ≡ false
    ne = not_empty _ (chars-decimal 18 (v / 1000000) (omega arith))

    six : String
    six = last_digits 6 (v % 1000000)

    fraction : digits six 0 ≡ some (v % 1000000)
    fraction = digits-last_digits 6 (v % 1000000) (omega arith)

    read : (n : ℕ) × (digits (trim_zeros six) 0 ≡ some n)
    read = trimmed six 0 (v % 1000000) fraction

    padded :
        (p : String) × (pad 6 (trim_zeros six) ≡ some p) × ((k : ℕ) → digits p k ≡ digits six k)
    padded = pad-trim_zeros six 6 (chars-last_digits 6 (v % 1000000))
