-- ===== src/Order/History/Timeline.antt =====
-- The newest tracking event of an order.
use cross_border_logistics.Prelude.{
  Bool, true, false, Option, none, some, List, [], ◌∷◌, ◌++◌, ◌==◌, ◌≡◌, ◌∙◌, refl, arith,
  if◌then◌else◌, any, All, update_where,
}
use cross_border_logistics.External.{Uuid}
use cross_border_logistics.Order.Domain.{OrderStatus}
use cross_border_logistics.Order.Ports.{OrderRow, TrackingRow}
use cross_border_logistics.Order.Repository.{order_is}

-- The status that the newest tracking event of an order names.
unfoldable pub last_status : Uuid → List TrackingRow → Option OrderStatus
last_status k [] = none
last_status k (t ∷ rows) =
    let later = last_status k rows in
    elim later [ some s ↦ some s | none ↦ if t.order_id == k then some t.status else none ]

last_status-append :
    (k : Uuid) (rows : List TrackingRow) (t : TrackingRow)
    → last_status k (rows ++ t ∷ [])
      ≡ (if t.order_id == k then some t.status else last_status k rows)
unfolding last_status
last_status-append k [] t = refl
last_status-append k (r ∷ rows) t = ground (arith, last_status-append k rows t)

-- The order has the status of its newest tracking event.
abbrev pub IsTold : List TrackingRow → OrderRow → Type 0
IsTold rows row = last_status row.id rows ≡ some row.status

module _ (rows : List TrackingRow) (t : TrackingRow) where
  -- Orders that a new tracking event is not about stay told.
  other-IsTold :
      (row : OrderRow)
      → (t.order_id == row.id) ≡ false
      → IsTold rows row
      → IsTold (rows ++ t ∷ []) row
  other-IsTold row other h = last_status-append row.id rows t ∙ ground (arith, other, h)

  -- The order that a new tracking event is about has to have its status.
  own-IsTold :
      (row : OrderRow)
      → (t.order_id == row.id) ≡ true
      → t.status ≡ row.status
      → IsTold (rows ++ t ∷ []) row
  own-IsTold row own same = last_status-append row.id rows t ∙ ground (arith, own, same)

  -- A move of an order with its tracking event.
  pub moved-AllTold :
      (k : Uuid) (f : OrderRow → OrderRow)
      → t.order_id ≡ k
      → ((row : OrderRow) → ((f row).id ≡ row.id) × (t.status ≡ (f row).status))
      → (orders : List OrderRow) → All (IsTold rows) orders
      → All (IsTold (rows ++ t ∷ [])) (update_where (order_is k) f orders)
  unfolding update_where
  moved-AllTold k f same sets [] h = tt
  moved-AllTold k f same sets (row ∷ orders) h =
      (moved (order_is k row) refl, moved-AllTold k f same sets orders h.1)
    where
      moved : (b : Bool) → order_is k row ≡ b → IsTold (rows ++ t ∷ []) (if b then f row else row)
      moved true e = own-IsTold (f row) (ground (arith, same, (sets row).0, e)) (sets row).1
      moved false e = other-IsTold row (ground (arith, same, e)) h.0

  -- A new order with its tracking event.
  pub created-AllTold :
      (new : OrderRow) (orders : List OrderRow)
      → t.order_id ≡ new.id
      → t.status ≡ new.status
      → any (order_is new.id) orders ≡ false
      → All (IsTold rows) orders
      → All (IsTold (rows ++ t ∷ [])) (orders ++ new ∷ [])
  unfolding any
  created-AllTold new [] same status fresh h = (own-IsTold new (ground (arith, same)) status, tt)
  created-AllTold new (row ∷ orders) same status fresh h = (
    other-IsTold row (ground (arith, same, fresh)) h.0,
    created-AllTold new orders same status (ground (arith, fresh)) h.1,
  )
