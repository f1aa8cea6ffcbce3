-- ===== src/Orders/Transitions.antt =====
-- orders/management_status.py: the tables of moves, and what the management portal offers.
use zuvi_web.Prelude.{Bool, true, false, not, ◌&&◌, ◌||◌, List, any, select}
use zuvi_web.Orders.Model.{
  PaymentStatus, OrderStatus, StoreOrderStatus, Order, StoreOrder, OrderGraph, same_order_status,
  same_payment_status,
}
use zuvi_web.Orders.Status.{admin_cancellable, non_chargeable}
use zuvi_web.Orders.Sync.{ready_tier, is_completed}

-- Membership of the second status in the row of the first in `ADMIN_ORDER_STATUS_TRANSITIONS`, and
-- so on for each table.
unfoldable pub order_status_transition : OrderStatus → OrderStatus → Bool
order_status_transition OrderStatus.placed OrderStatus.confirmed = true
order_status_transition OrderStatus.placed OrderStatus.in_progress = true
order_status_transition OrderStatus.confirmed OrderStatus.in_progress = true
order_status_transition OrderStatus.confirmed OrderStatus.completed = true
order_status_transition OrderStatus.in_progress OrderStatus.completed = true
order_status_transition OrderStatus.partially_cancelled OrderStatus.in_progress = true
order_status_transition OrderStatus.partially_cancelled OrderStatus.completed = true
order_status_transition _ _ = false

unfoldable pub payment_status_transition : PaymentStatus → PaymentStatus → Bool
payment_status_transition PaymentStatus.pending PaymentStatus.collected = true
payment_status_transition PaymentStatus.pending PaymentStatus.cancelled = true
payment_status_transition _ _ = false

unfoldable pub is_order_status_reversal : Order → OrderStatus → Bool
is_order_status_reversal o new = elim o.status [
  | OrderStatus.completed ↦ same_order_status new OrderStatus.in_progress
  | _ ↦ false
]

unfoldable pub is_payment_status_reversal : Order → PaymentStatus → Bool
is_payment_status_reversal o new = elim o.payment_status [
  | PaymentStatus.collected ↦ same_payment_status new PaymentStatus.pending
  | _ ↦ false
]

-- Membership in `_order_reversals_allowed(order)`.
unfoldable pub order_reversal_allowed : Order → OrderStatus → Bool
unfolding is_order_status_reversal
order_reversal_allowed o new =
    not (same_payment_status o.payment_status PaymentStatus.collected)
    && is_order_status_reversal o new

-- `_STORE_ORDER_COMPLETABLE_STATUSES`.
unfoldable pub completable : StoreOrderStatus → Bool
unfolding ready_tier
completable s = ready_tier s || is_completed s

unfoldable pub active_store_orders : List StoreOrder → List StoreOrder
active_store_orders rows = select (λ so. not (non_chargeable so.status)) rows

-- Membership in `available_admin_order_statuses(order)`.
unfoldable pub available_admin_order_status : OrderGraph → OrderStatus → Bool
available_admin_order_status g new =
    not (same_order_status g.order.status OrderStatus.cancelled)
    && (order_status_transition g.order.status new || order_reversal_allowed g.order new)
    && not (
        same_order_status new OrderStatus.completed
        && any (λ so. not (completable so.status)) (active_store_orders g.store_orders))

unfoldable pub admin_can_cancel_order : Order → Bool
admin_can_cancel_order o =
    not (same_order_status o.status OrderStatus.cancelled) && admin_cancellable o.status

-- Membership in `available_admin_payment_statuses(order)`.
unfoldable pub available_admin_payment_status : Order → PaymentStatus → Bool
available_admin_payment_status o new =
    not (same_order_status o.status OrderStatus.cancelled)
    && (payment_status_transition o.payment_status new || is_payment_status_reversal o new)
    && not (
        same_payment_status new PaymentStatus.collected
        && not (same_order_status o.status OrderStatus.completed))
