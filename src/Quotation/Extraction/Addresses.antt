-- ===== src/Quotation/Extraction/Addresses.antt =====
-- The unsafe addresses of 32 bits, as ranges.
use cross_border_logistics.Prelude.{
  ℕ, Bool, true, false, ◌&&◌, List, [], ◌∷◌, ◌≡◌, arith, any, leb, ◌∙◌, Bool-cases, inl, inr, sym,
}
use cross_border_logistics.Quotation.Extraction.Safety.{unsafe_v4}

-- The first and the last address of a range.
abbrev pub Range : Type 0
Range = ℕ × ℕ

abbrev pub contains : ℕ → Range → Bool
contains n (first, last) = leb first n && leb n last

-- 0.0.0.0, 10.0.0.0/8, 100.100.100.200, 127.0.0.0/8, 169.254.0.0/16, 172.16.0.0/12, 192.168.0.0/16
-- and 224.0.0.0/4
unfoldable pub internal : List Range
internal =
    (0, 0)
    ∷ (0x0a000000, 0x0affffff)
    ∷ (0x646464c8, 0x646464c8)
    ∷ (0x7f000000, 0x7fffffff)
    ∷ (0xa9fe0000, 0xa9feffff)
    ∷ (0xac100000, 0xac1fffff)
    ∷ (0xc0a80000, 0xc0a8ffff)
    ∷ (0xe0000000, 0xefffffff)
    ∷ []

unsafe_in_range : (n : ℕ) → unsafe_v4 n ≡ true → any (contains n) internal ≡ true
unfolding unsafe_v4 any internal
unsafe_in_range n h = ground arith

in_range_unsafe : (n : ℕ) → unsafe_v4 n ≡ false → any (contains n) internal ≡ false
unfolding unsafe_v4 any internal
in_range_unsafe n h = ground arith

-- An address of 32 bits is refused if and only if it lies in one of the ranges.
pub unsafe_v4-any : (n : ℕ) → unsafe_v4 n ≡ any (contains n) internal
unsafe_v4-any n = elim (Bool-cases (unsafe_v4 n)) [
  | inl unsafe ↦ unsafe ∙ sym (unsafe_in_range n unsafe)
  | inr safe ↦ safe ∙ sym (in_range_unsafe n safe)
]
