-- ===== src/Go/Numbers.antt =====
-- What the services use of Go's package strconv, and the parts of a decimal number.
pub mod Digits
use Prim.Native.String.{◌++◌ as append}
use Prim.Native.Char.{code}
use cross_border_logistics.Prelude.{
  ℕ, zero, suc, ◌+◌, ◌-◌, ◌*◌, ◌/◌, ◌%◌, ℤ, pos, negsuc, String, Bool, true, false, ◌&&◌, Option,
  none, some, ◌==◌, leb, ltb, if◌then◌else◌, two63, sub_ℕ,
}

abbrev is_digit : ℕ → Bool
is_digit c = leb b'0' c && leb c b'9'

-- The digits of a number, behind those that were read.
unfoldable pub digits : String → ℕ → Option ℕ
digits String.[] n = some n
digits (String.◌∷◌ c s) n = if is_digit (code c) then digits s (n * 10 + (code c - b'0')) else none

-- A number needs a digit.
unsigned : String → Option ℕ
unfolding digits
unsigned String.[] = none
unsigned (String.◌∷◌ c s) = digits (String.◌∷◌ c s) 0

-- The int64 of a sign and a size; `none` is an error of the range.
abbrev signed : Bool → Option ℕ → Option ℤ
signed negative none = none
signed false (some n) = if ltb n two63 then some (pos n) else none
signed true (some n) = if leb n two63 then some (sub_ℕ 0 n) else none

-- `strconv.ParseInt(s, 10, 64)`; `none` is an error.
unfoldable pub parse_int : String → Option ℤ
unfolding unsigned
parse_int String.[] = none
parse_int (String.◌∷◌ c s) =
    if code c == b'-'
    then signed true (unsigned s)
    else if code c == b'+'
    then signed false (unsigned s)
    else signed false (unsigned (String.◌∷◌ c s))

-- `strings.Split(s, ".")`: the part before the first dot, and what is behind it.
unfoldable pub before_dot : String → String
before_dot String.[] = String.[]
before_dot (String.◌∷◌ c s) =
    let rest = before_dot s in if code c == b'.' then String.[] else String.◌∷◌ c rest

unfoldable pub after_dot : String → Option String
after_dot String.[] = none
after_dot (String.◌∷◌ c s) = let rest = after_dot s in if code c == b'.' then some s else rest

abbrev pub digit : ℕ → String
digit n =
    if n == 0
    then "0"
    else if n == 1
    then "1"
    else if n == 2
    then "2"
    else if n == 3
    then "3"
    else if n == 4
    then "4"
    else if n == 5
    then "5"
    else if n == 6
    then "6"
    else if n == 7
    then "7"
    else if n == 8
    then "8"
    else "9"

-- The last `n` decimal digits, which is `%0nd` of a number that has no more.
unfoldable pub last_digits : ℕ → ℕ → String
last_digits zero m = ""
last_digits (suc n) m = append (last_digits n (m / 10)) (digit (m % 10))

-- The decimal digits of a number below 10 ^ (fuel + 1).
unfoldable pub decimal : ℕ → ℕ → String
decimal zero m = digit m
decimal (suc fuel) m =
    let high = decimal fuel (m / 10) in if ltb m 10 then digit m else append high (digit (m % 10))

-- `strconv.FormatInt`: an int64 has at most 19 digits.
unfoldable pub format_int : ℤ → String
unfolding decimal
format_int (pos n) = decimal 18 n
format_int (negsuc n) = append "-" (decimal 18 (suc n))
