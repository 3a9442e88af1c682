-- ===== src/Order/Domain/Transitions.antt =====
-- The transition diagram of an order: where a status can go, and that it never comes back.
use cross_border_logistics.Prelude.{◌<◌, true, ◌≡◌, refl, arith, str_eq}
use cross_border_logistics.Order.Domain.{
  OrderStatus, waiting_deposit, waiting_purchase, ordinal, wire, status_eq, can_transition,
}

-- The comparison of two statuses is that of their texts.
pub status_eq-wire : (a b : OrderStatus) → status_eq a b ≡ str_eq (wire a) (wire b)
unfolding status_eq wire
status_eq-wire waiting_deposit waiting_deposit = refl
status_eq-wire waiting_deposit _ = refl
status_eq-wire _ waiting_deposit = refl
status_eq-wire _ waiting_purchase = refl
status_eq-wire _ _ = refl

-- Every allowed transition moves an order forward.
pub can_transition_forward :
    (from to : OrderStatus) → can_transition from to ≡ true → ordinal from < ordinal to
unfolding can_transition
can_transition_forward waiting_deposit to h = ground arith
can_transition_forward _ to h = ground arith
