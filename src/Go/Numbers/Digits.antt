-- ===== src/Go/Numbers/Digits.antt =====
-- Decimal digits: what is printed is read back.
use Prim.Native.Char.{code}
use Prim.Native.String.{◌++◌ as append}
use Prim.Native.String.append.{cons, nil}
use cross_border_logistics.Prelude.{
  ℕ, zero, suc, ◌+◌, ◌-◌, ◌*◌, ◌/◌, ◌%◌, ◌^◌, ◌<◌, String, true, false, none, some, ◌≡◌, refl,
  arith, ◌∙◌, ap, ltb, Bool-cases, inl, inr, two63, pos,
}
use cross_border_logistics.Go.{is_empty, is_space}
use cross_border_logistics.Go.Trim.{unspaced}
use cross_border_logistics.Go.Numbers.{
  digits, digit, decimal, last_digits, before_dot, after_dot, parse_int,
}

-- What is read of two texts, one behind the other.
pub digits-append :
    (s t : String) (k m : ℕ) → digits s k ≡ some m → digits (append s t) k ≡ digits t m
unfolding digits
digits-append String.[] t k m h = let same : k ≡ m = cc in rw nil (ap (digits t) same)
digits-append (String.◌∷◌ c s) t k m h =
    rw cons (ground (arith, digits-append s t (k * 10 + (code c - b'0')) m))

digits-digit : (d k : ℕ) → d < 10 → digits (digit d) k ≡ some (k * 10 + d)
unfolding digits
digits-digit zero k h = ap some (omega arith)
digits-digit (suc zero) k h = ap some (omega arith)
digits-digit (suc (suc zero)) k h = ap some (omega arith)
digits-digit (suc (suc (suc zero))) k h = ap some (omega arith)
digits-digit (suc (suc (suc (suc zero)))) k h = ap some (omega arith)
digits-digit (suc (suc (suc (suc (suc zero))))) k h = ap some (omega arith)
digits-digit (suc (suc (suc (suc (suc (suc zero)))))) k h = ap some (omega arith)
digits-digit (suc (suc (suc (suc (suc (suc (suc zero))))))) k h = ap some (omega arith)
digits-digit (suc (suc (suc (suc (suc (suc (suc (suc zero)))))))) k h = ap some (omega arith)
digits-digit (suc (suc (suc (suc (suc (suc (suc (suc (suc zero))))))))) k h = ap some (omega arith)
digits-digit (suc (suc (suc (suc (suc (suc (suc (suc (suc (suc d)))))))))) k h =
    absurd (omega arith)

tail_digit :
    (s : String) (m : ℕ)
    → digits s 0 ≡ some (m / 10)
    → digits (append s (digit (m % 10))) 0 ≡ some m
tail_digit s m h =
    digits-append s (digit (m % 10)) 0 (m / 10) h
    ∙ digits-digit (m % 10) (m / 10) (omega arith)
    ∙ ap some (omega arith)

tenth : (n m : ℕ) → m < 10 ^ suc n → m / 10 < 10 ^ n
tenth n m h = omega arith

-- A number is read back from its digits.
pub digits-decimal : (fuel m : ℕ) → m < 10 ^ suc fuel → digits (decimal fuel m) 0 ≡ some m
unfolding decimal
digits-decimal zero m h = digits-digit m 0 (omega arith) ∙ ap some (omega arith)
digits-decimal (suc fuel) m h = elim (Bool-cases (ltb m 10)) [
  | inl small ↦ rw small (digits-digit m 0 (ground arith) ∙ ap some (omega arith))
  | inr large ↦
      rw large
        (tail_digit (decimal fuel (m / 10)) m (digits-decimal fuel (m / 10) (tenth (suc fuel) m h)))
]

pub digits-last_digits : (n m : ℕ) → m < 10 ^ n → digits (last_digits n m) 0 ≡ some m
unfolding last_digits digits
digits-last_digits zero m h = ap some (omega arith)
digits-last_digits (suc n) m h =
    tail_digit (last_digits n (m / 10)) m (digits-last_digits n (m / 10) (tenth n m h))

-- Digits hold no white space and no dot.
pub digits-unspaced : (s : String) (k m : ℕ) → digits s k ≡ some m → unspaced s ≡ true
unfolding digits unspaced is_space
digits-unspaced String.[] k m h = refl
digits-unspaced (String.◌∷◌ c s) k m h =
    ground (arith, digits-unspaced s (k * 10 + (code c - b'0')) m)

pub before_dot-digits :
    (s t : String) (k m : ℕ) → digits s k ≡ some m → before_dot (append s (append "." t)) ≡ s
unfolding digits before_dot
before_dot-digits String.[] t k m h = rw (nil, cons) refl
before_dot-digits (String.◌∷◌ c s) t k m h =
    rw cons (ground (arith, before_dot-digits s t (k * 10 + (code c - b'0')) m))

pub after_dot-digits :
    (s t : String) (k m : ℕ) → digits s k ≡ some m → after_dot (append s (append "." t)) ≡ some t
unfolding digits after_dot
after_dot-digits String.[] t k m h = rw (nil, cons, nil) refl
after_dot-digits (String.◌∷◌ c s) t k m h =
    rw cons (ground (arith, after_dot-digits s t (k * 10 + (code c - b'0')) m))

pub no_dot : (s : String) (k m : ℕ) → digits s k ≡ some m → after_dot s ≡ none
unfolding digits after_dot
no_dot String.[] k m h = refl
no_dot (String.◌∷◌ c s) k m h = ground (arith, no_dot s (k * 10 + (code c - b'0')) m)

pub all_before_dot : (s : String) (k m : ℕ) → digits s k ≡ some m → before_dot s ≡ s
unfolding digits before_dot
all_before_dot String.[] k m h = refl
all_before_dot (String.◌∷◌ c s) k m h =
    ground (arith, all_before_dot s (k * 10 + (code c - b'0')) m)

abbrev pub chars : String → ℕ
chars String.[] = 0
chars (String.◌∷◌ c s) = suc (chars s)

pub chars-append : (s t : String) → chars (append s t) ≡ chars s + chars t
chars-append String.[] t = rw nil (omega arith)
chars-append (String.◌∷◌ c s) t = rw cons (omega (arith, chars-append s t))

pub chars-digit : (d : ℕ) → d < 10 → chars (digit d) ≡ 1
chars-digit zero h = refl
chars-digit (suc zero) h = refl
chars-digit (suc (suc zero)) h = refl
chars-digit (suc (suc (suc zero))) h = refl
chars-digit (suc (suc (suc (suc zero)))) h = refl
chars-digit (suc (suc (suc (suc (suc zero))))) h = refl
chars-digit (suc (suc (suc (suc (suc (suc zero)))))) h = refl
chars-digit (suc (suc (suc (suc (suc (suc (suc zero))))))) h = refl
chars-digit (suc (suc (suc (suc (suc (suc (suc (suc zero)))))))) h = refl
chars-digit (suc (suc (suc (suc (suc (suc (suc (suc (suc zero))))))))) h = refl
chars-digit (suc (suc (suc (suc (suc (suc (suc (suc (suc (suc d)))))))))) h = absurd (omega arith)

pub chars-last_digits : (n m : ℕ) → chars (last_digits n m) ≡ n
unfolding last_digits
chars-last_digits zero m = refl
chars-last_digits (suc n) m = omega (
  arith,
  chars-append (last_digits n (m / 10)) (digit (m % 10)),
  chars-last_digits n (m / 10),
  chars-digit (m % 10) (omega arith),
)

pub not_empty : (s : String) → 0 < chars s → is_empty s ≡ false
not_empty String.[] h = absurd (omega (arith, h))
not_empty (String.◌∷◌ c s) h = refl

pub chars-decimal : (fuel m : ℕ) → m < 10 ^ suc fuel → 0 < chars (decimal fuel m)
unfolding decimal
chars-decimal zero m h = omega (arith, chars-digit m (omega arith))
chars-decimal (suc fuel) m h = elim (Bool-cases (ltb m 10)) [
  | inl small ↦ rw small (omega (arith, chars-digit m (ground arith)))
  | inr large ↦ rw large (
      omega (
        arith,
        chars-append (decimal fuel (m / 10)) (digit (m % 10)),
        chars-digit (m % 10) (omega arith),
      ))
]

-- A text of digits has no sign, and is the number that its digits are.
pub parse_int-digits :
    (s : String) (m : ℕ)
    → digits s 0 ≡ some m
    → is_empty s ≡ false
    → m < two63
    → parse_int s ≡ some (pos m)
unfolding parse_int digits
parse_int-digits String.[] m h e k = cc
parse_int-digits (String.◌∷◌ c s) m h e k = ground arith

pub dotted : (s : String) (k m : ℕ) → digits s k ≡ some m → unspaced (append "." s) ≡ true
unfolding unspaced is_space
dotted s k m h = rw (cons, nil) (digits-unspaced s k m h)
