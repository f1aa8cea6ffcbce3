-- ===== src/Orders/Management/Available.antt =====
-- What the management portal offers, orders/management_status.py, and what its services accept.
use zuvi_web.Prelude.{◌≡◌, false, arith}
use zuvi_web.Prelude.Text.{Text, is_empty}
use zuvi_web.Prelude.Effect.{is_ok, running}
use zuvi_web.Orders.Model.{
  PaymentStatus, OrderStatus, OrderGraph, Call, same_order_status, same_order_status→eq,
}
use zuvi_web.Orders.Transitions.{
  order_status_transition, is_order_status_reversal, order_reversal_allowed,
  available_admin_order_status, payment_status_transition, is_payment_status_reversal,
  available_admin_payment_status,
}
use zuvi_web.Orders.Management.{
  check_order_move, cascade, complete_active_store_orders, move_order, check_payment_move,
  move_payment,
}
use zuvi_web.Orders.Lifecycle.{IsConsistent}

-- With a note that is not blank, a change to another status is accepted exactly where it is on offer.
pub move_order_available :
    (c : Call) (why note : Text) (new : OrderStatus) (g : OrderGraph)
    → is_empty note ≡ false
    → same_order_status new g.order.status ≡ false
    → is_ok (move_order c why note new g) ≡ available_admin_order_status g new
unfolding move_order check_order_move cascade complete_active_store_orders
    available_admin_order_status order_status_transition is_order_status_reversal
    order_reversal_allowed running
move_order_available c why note new g h k = ground (arith, h, k)

-- A change of payment of a consistent order is accepted, with a note that is not blank, exactly where
-- it is on offer.
pub move_payment_available :
    (c : Call) (why note : Text) (new : PaymentStatus) (g : OrderGraph)
    → is_empty note ≡ false
    → IsConsistent g.order g.store_orders
    → is_ok (move_payment c why note new g) ≡ available_admin_payment_status g.order new
unfolding move_payment check_payment_move available_admin_payment_status payment_status_transition
    is_payment_status_reversal running
move_payment_available c why note new g h v =
    ground (arith, h, v.released, same_order_status→eq g.order.status OrderStatus.cancelled)
