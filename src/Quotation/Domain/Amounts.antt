-- ===== src/Quotation/Domain/Amounts.antt =====
-- `Calculate`: its answer, and when it has one.
use cross_border_logistics.Prelude.{
  ℕ, ◌+◌, ◌*◌, ◌<◌, ◌≤◌, ℤ, pos, Bool, true, false, ltb, two63, if◌then◌else◌, arith, Result, ok,
  err, ◌≡◌, refl, sub64, add64, ltb_ℤ, ◌%◌, ◌/◌, ◌&&◌, pos_part, not, ◌||◌, leb_ℤ, ap, ◌∙◌,
}
use cross_border_logistics.Quotation.Domain.{
  QuotationError, invalid_quotation_input, estimated_shipping_fee_vnd, product_of, fee_of, with_fee,
  calculate, is_int64,
}

with_fee_answer :
    (amount fee : ℕ)
    → amount < two63
    → fee ≤ amount
    → with_fee amount fee ≡ (
        if ltb (amount + fee + estimated_shipping_fee_vnd) two63
        then ok (pos amount, pos fee, pos (amount + fee + estimated_shipping_fee_vnd))
        else err invalid_quotation_input)
unfolding with_fee sub64 add64
with_fee_answer amount fee h k = ground arith

-- `n / d` to the nearest whole number, halves upwards.
abbrev pub nearest : ℕ → ℕ → ℕ
nearest n d = if ltb (n % d * 2) d then n / d else n / d + 1

nearest_million : (n : ℕ) → (n + 500000) / 1000000 ≡ nearest n 1000000
nearest_million n = ground arith

nearest_hundred : (n : ℕ) → (n + 50) / 100 ≡ nearest n 100
nearest_hundred n = ground arith

fee_fits : (amount : ℕ) → fee_of amount ≤ amount
unfolding fee_of
fee_fits amount = omega arith

abbrev pub is_positive : ℤ → Bool
is_positive a = ltb_ℤ (pos 0) a

-- Amount, fee and total, where the total is an int64.
abbrev pub summed : ℕ → ℕ → Result QuotationError (ℤ × ℤ × ℤ)
summed amount fee =
    if ltb (amount + fee + estimated_shipping_fee_vnd) two63
    then ok (pos amount, pos fee, pos (amount + fee + estimated_shipping_fee_vnd))
    else err invalid_quotation_input

-- What a quotation has to be, by its exact price in millionths of a VND.
abbrev pub expected : Bool → ℕ → Result QuotationError (ℤ × ℤ × ℤ)
expected valid micros =
    if valid
    then summed (nearest micros 1000000) (nearest (nearest micros 1000000 * 5) 100)
    else err invalid_quotation_input

bounded :
    (amount fee : ℕ)
    → fee ≤ amount
    → (if not (is_int64 amount) then err invalid_quotation_input else with_fee amount fee)
      ≡ summed amount fee
bounded amount fee h = ground (arith, with_fee_answer amount fee)

-- What the code computes from a product is what has to be.
settled :
    (micros : ℕ)
    → (let amount = (micros + 500000) / 1000000 in
        if not (is_int64 amount)
        then err invalid_quotation_input
        else with_fee amount (fee_of amount))
      ≡ expected true micros
unfolding fee_of
settled micros =
    bounded ((micros + 500000) / 1000000) (fee_of ((micros + 500000) / 1000000)) (fee_fits _)
    ∙ ap (λ a. summed a (fee_of a)) (nearest_million micros)
    ∙ ap (summed (nearest micros 1000000)) (nearest_hundred (nearest micros 1000000 * 5))

guards :
    (a b c : ℤ)
    → (leb_ℤ a (pos 0) || leb_ℤ b (pos 0) || leb_ℤ c (pos 0))
      ≡ not (is_positive a && is_positive b && is_positive c)
guards a b c = ground arith

either :
    (valid : Bool) (micros : ℕ) (x : Result QuotationError (ℤ × ℤ × ℤ))
    → x ≡ expected true micros
    → (if not valid then err invalid_quotation_input else x) ≡ expected valid micros
either true micros x h = h
either false micros x h = refl

-- `Calculate` gives the exact price in VND to the nearest, its 5 percent to the nearest, and their
-- sum with the shipping fee, for positive arguments whose total is an int64, also where the product
-- of the three is beyond 64 bits; for all others it gives the error, and never a number that has
-- wrapped around.
pub calculate_exact :
    (price quantity rate : ℤ)
    → calculate price quantity rate
      ≡ expected
          (is_positive price && is_positive quantity && is_positive rate)
          (pos_part price * pos_part quantity * pos_part rate)
unfolding calculate product_of
calculate_exact price quantity rate = rw (guards price quantity rate) (
    either (is_positive price && is_positive quantity && is_positive rate)
      (pos_part price * pos_part quantity * pos_part rate) _ (settled _))
