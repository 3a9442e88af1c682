-- ===== src/Order/Service/Money.antt =====
-- The amounts of an order: `deposit` and `RemainingAmountVND` in `Create`.
use cross_border_logistics.Prelude.{
  ℕ, ◌-◌, ◌*◌, ◌/◌, ◌<◌, pos, String, ◌≡◌, refl, ap, ◌∙◌, arith, two63, wrap64, add64, add64-pos,
  sub64, sub64-pos, mul64, quot64, rem64,
}
use cross_border_logistics.External.{Uuid, Uuids}
use cross_border_logistics.Event.{Codec}
use cross_border_logistics.Order.Ports.{QuotationSnapshot}
use cross_border_logistics.Order.Service.{deposit_of, new_order}

-- The deposit of a total that is an int64 is 70 percent, rounded down.
pub deposit_of_lem : (t : ℕ) → t < two63 → deposit_of (pos t) ≡ pos (70 * t / 100)
unfolding deposit_of add64 mul64 quot64 rem64 wrap64
deposit_of_lem t h = ground arith

-- The two parts of a total, as the code subtracts and adds them again.
rest_of_deposit :
    (t : ℕ)
    → t < two63
    → (sub64 (pos t) (pos (70 * t / 100)) ≡ pos (t - 70 * t / 100))
      × (add64 (pos (70 * t / 100)) (pos (t - 70 * t / 100)) ≡ pos t)
rest_of_deposit t h = (
  sub64-pos t (70 * t / 100) (omega arith) h,
  add64-pos (70 * t / 100) (t - 70 * t / 100) (omega arith) ∙ ap pos (omega arith),
)

-- A new order for a total t splits it without loss: 70 percent, rounded down, is the deposit, the
-- rest the remaining amount, and the two add up to the total again.
pub new_order_splits :
    (u : Uuids) (c : Codec) (id customer address : String) (s : QuotationSnapshot) (item : Uuid)
    (now t : ℕ)
    → s.total_amount_vnd ≡ pos t
    → t < two63
    → let o = new_order u c id customer address s item now in
      (o.deposit_amount_vnd ≡ pos (70 * t / 100))
      × (o.remaining_amount_vnd ≡ pos (t - 70 * t / 100))
      × (add64 o.deposit_amount_vnd o.remaining_amount_vnd ≡ o.total_amount_vnd)
unfolding new_order
new_order_splits u c id customer address s item now t total h =
    let (left, whole) = rest_of_deposit t h in
    rw (total, deposit_of_lem t h, left) (refl, refl, whole)
