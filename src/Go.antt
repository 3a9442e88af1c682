-- ===== src/Go.antt =====
-- What the services use of Go's package strings.
pub mod Trim
pub mod Numbers
use Prim.Native.Char.{Char, code}
use cross_border_logistics.Prelude.{
  ℕ, String, Bool, ◌||◌, ◌&&◌, true, false, ◌≡◌, refl, leb, ◌==◌, if◌then◌else◌, List, [], ◌∷◌,
}

-- `unicode.IsSpace`: the code points with the property White_Space.
unfoldable pub is_space : ℕ → Bool
is_space c =
    leb 9 c && leb c 13
    || c == 32
    || c == 0x85
    || c == 0xa0
    || c == 0x1680
    || leb 0x2000 c && leb c 0x200a
    || c == 0x2028
    || c == 0x2029
    || c == 0x202f
    || c == 0x205f
    || c == 0x3000

abbrev pub is_empty : String → Bool
is_empty String.[] = true
is_empty (String.◌∷◌ c s) = false

trim_left : String → String
trim_left String.[] = String.[]
trim_left (String.◌∷◌ c s) = if is_space (code c) then trim_left s else String.◌∷◌ c s

trim_right : String → String
trim_right String.[] = String.[]
trim_right (String.◌∷◌ c s) =
    let rest = trim_right s in
    if is_empty rest && is_space (code c) then String.[] else String.◌∷◌ c rest

-- `strings.TrimSpace`.
unfoldable pub trim_space : String → String
unfolding trim_left trim_right is_space
trim_space s = trim_right (trim_left s)

trim_space_run : trim_space " \t a b\n" ≡ "a b"
unfolding trim_space
trim_space_run = refl

-- A character in front of the first text.
unfoldable pub before_first : Char → List String → List String
before_first c [] = String.◌∷◌ c String.[] ∷ []
before_first c (s ∷ parts) = String.◌∷◌ c s ∷ parts

-- `strings.Split`, by one character
unfoldable pub split_on : ℕ → String → List String
unfolding before_first
split_on k String.[] = String.[] ∷ []
split_on k (String.◌∷◌ c s) =
    let rest = split_on k s in if code c == k then String.[] ∷ rest else before_first c rest
