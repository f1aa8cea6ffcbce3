-- ===== src/Orders/Lifecycle.antt =====
-- What holds of an order between any two calls of the services of orders/: its status, its payment and
-- its store orders agree.
pub mod Rows
pub mod Sweep
pub mod Cascade
pub mod Moves
pub mod Payment
pub mod Synced
pub mod Closing
pub mod Cancels
pub mod StoreRows
pub mod Stores
pub mod Closed
pub mod Reachable
mod Tests
use zuvi_web.Prelude.{ℕ, ◌≡◌, Bool, true, false, not, ◌&&◌, ◌||◌, List, [], ◌∷◌, any, ◌==◌}
use zuvi_web.Orders.Model.{PaymentStatus, OrderStatus, StoreOrderStatus, Order, StoreOrder}
use zuvi_web.Orders.Status.{non_chargeable}
use zuvi_web.Orders.Sync.{is_completed}
use zuvi_web.Orders.Sync.Rules.{chargeable, unfinished}

-- Some store order has a status that passes.
abbrev pub some_row : (StoreOrderStatus → Bool) → List StoreOrder → Bool
some_row p rows = any (λ (so : StoreOrder). p so.status) rows

abbrev pub ApartRows : List StoreOrder → Type 0
ApartRows [] = Unit
ApartRows (r ∷ rows) = (any (λ (so : StoreOrder). so.pk == r.pk) rows ≡ false) × ApartRows rows

pub record IsConsistent (o : Order) (rows : List StoreOrder) : Type 0 where
  pub apart : ApartRows rows
  -- Cash is on record as collected only for a delivered order.
  pub collected : o.payment_status ≡ PaymentStatus.collected → o.status ≡ OrderStatus.completed
  -- A delivered order has no store order that is still to be fulfilled.
  pub delivered : o.status ≡ OrderStatus.completed → some_row unfinished rows ≡ false
  -- A store order is completed only with its order.
  pub fulfilled : some_row is_completed rows ≡ true → o.status ≡ OrderStatus.completed
  -- A cancelled order has only cancelled and rejected store orders, and no open payment.
  pub closed : o.status ≡ OrderStatus.cancelled → some_row chargeable rows ≡ false
  pub released : o.status ≡ OrderStatus.cancelled → o.payment_status ≡ PaymentStatus.cancelled
  -- Where all store orders are cancelled or rejected, so is the order.
  pub emptied :
      some_row chargeable rows ≡ false
      → some_row (λ s. not (chargeable s)) rows ≡ true
      → o.status ≡ OrderStatus.cancelled
