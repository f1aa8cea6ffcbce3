-- ===== src/Orders/Status.antt =====
-- orders/status.py: the sets of statuses that rules refer to, and who may cancel or reject.
use zuvi_web.Prelude.{Bool, true, false, not, List, any, if◌then◌else◌}
use zuvi_web.Prelude.Effect.{Result, ok, raise_when, validation, status}
use zuvi_web.Orders.Model.{OrderStatus, StoreOrderStatus, Order, StoreOrder, same_order_status}

-- Membership in `CUSTOMER_CANCELLABLE_ORDER_STATUSES`, and so on for each set.
unfoldable pub customer_cancellable : OrderStatus → Bool
customer_cancellable OrderStatus.placed = true
customer_cancellable OrderStatus.confirmed = true
customer_cancellable _ = false

unfoldable pub admin_cancellable : OrderStatus → Bool
admin_cancellable OrderStatus.placed = true
admin_cancellable OrderStatus.confirmed = true
admin_cancellable OrderStatus.in_progress = true
admin_cancellable OrderStatus.partially_cancelled = true
admin_cancellable _ = false

unfoldable pub store_rejectable : StoreOrderStatus → Bool
store_rejectable StoreOrderStatus.pending = true
store_rejectable _ = false

unfoldable pub non_chargeable : StoreOrderStatus → Bool
non_chargeable StoreOrderStatus.rejected = true
non_chargeable StoreOrderStatus.cancelled = true
non_chargeable _ = false

unfoldable pub store_order_active : StoreOrderStatus → Bool
store_order_active StoreOrderStatus.pending = true
store_order_active StoreOrderStatus.accepted = true
store_order_active StoreOrderStatus.preparing = true
store_order_active StoreOrderStatus.ready = true
store_order_active StoreOrderStatus.out_for_delivery = true
store_order_active StoreOrderStatus.ready_for_pickup = true
store_order_active _ = false

unfoldable pub customer_cancel_blocking : StoreOrderStatus → Bool
customer_cancel_blocking StoreOrderStatus.preparing = true
customer_cancel_blocking StoreOrderStatus.ready = true
customer_cancel_blocking StoreOrderStatus.out_for_delivery = true
customer_cancel_blocking StoreOrderStatus.ready_for_pickup = true
customer_cancel_blocking StoreOrderStatus.completed = true
customer_cancel_blocking _ = false

unfoldable pub customer_cancelable_store : StoreOrderStatus → Bool
customer_cancelable_store StoreOrderStatus.pending = true
customer_cancelable_store StoreOrderStatus.accepted = true
customer_cancelable_store _ = false

abbrev pub is_cancelled_order : Order → Bool
is_cancelled_order o = same_order_status o.status OrderStatus.cancelled

unfoldable pub validate_customer_order_cancellation : Order → List StoreOrder → Result (Unit {0})
validate_customer_order_cancellation o store_orders =
    if is_cancelled_order o
    then ok tt
    else raise_when (not (customer_cancellable o.status)) (validation status) (
        raise_when (any (λ so. customer_cancel_blocking so.status) store_orders) (validation status)
          (ok tt))

unfoldable pub validate_admin_order_cancellation : Order → Result (Unit {0})
validate_admin_order_cancellation o =
    if is_cancelled_order o
    then ok tt
    else raise_when (not (admin_cancellable o.status)) (validation status) (ok tt)

abbrev pub is_rejected_status : StoreOrderStatus → Bool
is_rejected_status StoreOrderStatus.rejected = true
is_rejected_status _ = false

unfoldable pub validate_store_order_rejection : StoreOrder → Result (Unit {0})
validate_store_order_rejection so =
    if is_rejected_status so.status
    then ok tt
    else raise_when (not (store_rejectable so.status)) (validation status) (ok tt)
