-- ===== src/Orders/Lifecycle/Closed.antt =====
-- The end of a cancelled order, orders/cancellation.py.
use zuvi_web.Prelude.{ℕ, ◌≡◌, refl, sym, ap, ◌∙◌, true, false, List, [], ◌∷◌, All, arith}
use zuvi_web.Prelude.Text.{Text}
use zuvi_web.Prelude.Effect.{ok}
use zuvi_web.Orders.Model.{
  PaymentStatus, OrderStatus, Order, StoreOrder, OrderItem, OrderGraph, Call, same_order_status→eq,
}
use zuvi_web.Orders.Status.{non_chargeable}
use zuvi_web.Orders.Sync.Rules.{chargeable}
use zuvi_web.Orders.Cancellation.{chargeable_rows, cancel_customer_order, cancel_order_by_admin}
use zuvi_web.Orders.Cancellation.Totals.{payable_totals_none}
use zuvi_web.Orders.Cancellation.Steps.{IsRestored}
use zuvi_web.Orders.Cancellation.Settled.{
  Settled, cancel_customer_order-Settled, cancel_order_by_admin-Settled,
}
use zuvi_web.Orders.Lifecycle.{some_row, IsConsistent}
use zuvi_web.Orders.Lifecycle.Cancels.{
  cancel_customer_order-IsConsistent, cancel_order_by_admin-IsConsistent,
}

pub record IsClosed (g : OrderGraph) : Type 0 where
  pub status : g.order.status ≡ OrderStatus.cancelled
  pub payment : g.order.payment_status ≡ PaymentStatus.cancelled
  pub rows : All (λ (so : StoreOrder). non_chargeable so.status ≡ true) g.store_orders
  pub restored : All IsRestored g.order_items
  pub marked : All (λ (i : OrderItem). i.is_cancelled ≡ true) g.order_items
  pub payable : g.order.grand_total ≡ 0

all-closed :
    (rows : List StoreOrder)
    → some_row chargeable rows ≡ false
    → All (λ (so : StoreOrder). non_chargeable so.status ≡ true) rows × (chargeable_rows rows ≡ [])
unfolding non_chargeable
all-closed [] h = (tt, refl)
all-closed (r ∷ rows) h =
    let (rest, none_left) = all-closed rows (ground (arith, h)) in
    ((ground (arith, h), rest), ground (arith, h, none_left))

Settled-IsClosed : (g : OrderGraph) → Settled g → IsConsistent g.order g.store_orders → IsClosed g
Settled-IsClosed g s v =
    let gone : g.order.status ≡ OrderStatus.cancelled =
      same_order_status→eq g.order.status OrderStatus.cancelled s.cancelled in
    let (rows, none_left) = all-closed g.store_orders (v.closed gone) in
    record {
      status = gone;
      payment = v.released gone;
      rows = rows;
      restored = s.restored;
      marked = s.marked;
      payable =
          sym (ap (λ (o : Order). o.grand_total) s.payable)
          ∙ payable_totals_none g.store_orders g.order none_left;
    }

-- A customer's cancellation of a consistent order, where it returns, leaves the order and its payment
-- cancelled, its store orders cancelled or rejected, the stock of all its lines returned, all its
-- lines marked, and nothing to pay.
pub cancel_customer_order-IsClosed :
    (c : Call) (customer : ℕ) (given : Text) (g : OrderGraph) {r : Unit {0} × OrderGraph}
    → cancel_customer_order c customer given g ≡ ok r
    → IsConsistent g.order g.store_orders
    → IsClosed r.1
cancel_customer_order-IsClosed c customer given g {r} h v =
    Settled-IsClosed r.1 (cancel_customer_order-Settled c customer given g h).0
      (cancel_customer_order-IsConsistent c customer given g h v)

-- An administrative cancellation of a consistent order, where it returns, leaves the order and its
-- payment cancelled, its store orders cancelled or rejected, the stock of all its lines returned, all
-- its lines marked, and nothing to pay.
pub cancel_order_by_admin-IsClosed :
    (c : Call) (given : Text) (g : OrderGraph) {r : Unit {0} × OrderGraph}
    → cancel_order_by_admin c given g ≡ ok r
    → IsConsistent g.order g.store_orders
    → IsClosed r.1
cancel_order_by_admin-IsClosed c given g {r} h v =
    Settled-IsClosed r.1 (cancel_order_by_admin-Settled c given g h)
      (cancel_order_by_admin-IsConsistent c given g h v)
