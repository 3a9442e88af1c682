-- ===== src/Quotation/Price/Digits.antt =====
-- Zeros at the end of a fraction, cut off and put back.
use Prim.Native.Char.{Char, code}
use Prim.Native.String.{◌++◌ as append}
use Prim.Native.String.append.{cons, nil}
use cross_border_logistics.Prelude.{
  ℕ, zero, suc, ◌+◌, ◌-◌, ◌*◌, String, Bool, true, false, some, ◌≡◌, refl, arith, ◌∙◌, ap, sym,
  if◌then◌else◌, subst, ◌&&◌, ◌==◌,
}
use cross_border_logistics.Go.{is_empty}
use cross_border_logistics.Go.Numbers.{digits}
use cross_border_logistics.Quotation.Price.{trim_zeros, pad}
use cross_border_logistics.Go.Numbers.Digits.{chars}

is_empty_sound : (s : String) → is_empty s ≡ true → s ≡ String.[]
is_empty_sound String.[] h = refl
is_empty_sound (String.◌∷◌ c s) h = cc

-- Without their last zeros they are digits still.
pub trimmed :
    (s : String) (k m : ℕ) → digits s k ≡ some m → (n : ℕ) × (digits (trim_zeros s) k ≡ some n)
unfolding digits trim_zeros
trimmed String.[] k m h = (k, refl)
trimmed (String.◌∷◌ c s) k m h =
    go (trimmed s (k * 10 + (code c - b'0')) m (ground arith))
      (is_empty (trim_zeros s) && code c == b'0')
  where
    go :
        (n : ℕ) × (digits (trim_zeros s) (k * 10 + (code c - b'0')) ≡ some n)
        → (b : Bool)
        → (n : ℕ) × (digits (if b then String.[] else String.◌∷◌ c (trim_zeros s)) k ≡ some n)
    go rest true = (k, refl)
    go rest false = (rest.0, ground (arith, rest.1))

abbrev Padded : ℕ → String → String → Type 0
Padded n s t = (p : String) × (pad n t ≡ some p) × ((k : ℕ) → digits p k ≡ digits s k)

put_back : (n : ℕ) (s t : String) → t ≡ String.[] → Padded n s t → Padded n s String.[]
put_back n s t e p = subst (Padded n s) e p

leading_zero : (p : String) (k : ℕ) → digits (append "0" p) k ≡ digits p (k * 10)
unfolding digits
leading_zero p k = rw (cons, nil) (ap (digits p) (omega arith))

zero_digit :
    (c : Char) (s : String) (k : ℕ) → code c ≡ b'0' → digits (String.◌∷◌ c s) k ≡ digits s (k * 10)
unfolding digits
zero_digit c s k h = rw h (ap (digits s) (omega arith))

-- Zeros that are cut off are put back.
pub pad-trim_zeros : (s : String) (n : ℕ) → chars s ≡ n → Padded n s (trim_zeros s)
unfolding digits trim_zeros pad
pad-trim_zeros String.[] zero h = ("", refl, λ k. refl)
pad-trim_zeros String.[] (suc n) h = absurd (omega (arith, h))
pad-trim_zeros (String.◌∷◌ c s) zero h = absurd (omega (arith, h))
pad-trim_zeros (String.◌∷◌ c s) (suc n) h =
    go (pad-trim_zeros s n (omega (arith, h))) (is_empty (trim_zeros s) && code c == b'0') refl
  where
    go :
        Padded n s (trim_zeros s)
        → (b : Bool) → (is_empty (trim_zeros s) && code c == b'0') ≡ b
        → Padded (suc n) (String.◌∷◌ c s) (if b then String.[] else String.◌∷◌ c (trim_zeros s))
    go rest false e = (String.◌∷◌ c rest.0, rw rest.1 refl, λ k. rw rest.2 refl)
    go rest true e =
        let empty = is_empty_sound (trim_zeros s) (ground arith) in
        let nothing = put_back n s (trim_zeros s) empty rest in
        let zero_code : code c ≡ b'0' = ground arith in
        (
          append "0" nothing.0,
          rw nothing.1 refl,
          λ k. leading_zero nothing.0 k ∙ nothing.2 (k * 10) ∙ sym (zero_digit c s k zero_code),
        )
