-- ===== src/Orders/Sync.antt =====
-- orders/order_status_sync.py: the order's status is calculated from those of its store orders, and
-- a change is written with its history.
pub mod Rules
pub mod History
use zuvi_web.Prelude.{
  Bool, true, false, not, ◌&&◌, ◌||◌, Option, none, some, List, [], ◌∷◌, map, any, all, select,
  if◌then◌else◌, get_or,
}
use zuvi_web.Prelude.Text.{Text, strip, or_else}
use zuvi_web.Prelude.Effect.{Action, pure, get, modify, ◌>>=◌, ◌>>◌}
use zuvi_web.Orders.Model.{
  PaymentStatus, OrderStatus, StoreOrderStatus, Order, StoreOrder, OrderStatusHistory, OrderGraph,
  Call, client_ip, put_order, add_status_history, same_order_status,
}
use zuvi_web.Orders.Status.{non_chargeable}

-- `STORE_ORDER_READY_TIER_STATUSES`.
unfoldable pub ready_tier : StoreOrderStatus → Bool
ready_tier StoreOrderStatus.ready = true
ready_tier StoreOrderStatus.out_for_delivery = true
ready_tier StoreOrderStatus.ready_for_pickup = true
ready_tier _ = false

-- `STORE_ORDER_PROCESSING_STATUSES`.
unfoldable pub processing : StoreOrderStatus → Bool
processing StoreOrderStatus.preparing = true
processing _ = false

abbrev pub is_completed : StoreOrderStatus → Bool
is_completed StoreOrderStatus.completed = true
is_completed _ = false

abbrev pub is_pending : StoreOrderStatus → Bool
is_pending StoreOrderStatus.pending = true
is_pending _ = false

abbrev pub is_accepted : StoreOrderStatus → Bool
is_accepted StoreOrderStatus.accepted = true
is_accepted _ = false

abbrev pub is_nil : List StoreOrderStatus → Bool
is_nil [] = true
is_nil (_ ∷ _) = false

-- The first rule that matches wins.
unfoldable pub calculate_order_status : List StoreOrderStatus → OrderStatus
calculate_order_status statuses =
    let active = select (λ s. not (non_chargeable s)) statuses in
    if is_nil statuses
    then OrderStatus.placed
    else if is_nil active
    then OrderStatus.cancelled
    else if all is_completed active
    then OrderStatus.completed
    else if any non_chargeable statuses
    then OrderStatus.partially_cancelled
    else if all ready_tier active
    then OrderStatus.in_progress
    else if any processing active && not (any ready_tier active)
    then OrderStatus.in_progress
    else if all is_pending active
    then OrderStatus.placed
    else if all (λ s. is_pending s || is_accepted s) active && any is_accepted active
    then OrderStatus.confirmed
    else OrderStatus.in_progress

unfoldable pub calculate_order_status_from_store_orders : List StoreOrder → OrderStatus
calculate_order_status_from_store_orders rows = calculate_order_status (map (λ so. so.status) rows)

-- An order that is cancelled has its open payment cancelled.
abbrev pub cancelled_payment : PaymentStatus → PaymentStatus
cancelled_payment PaymentStatus.pending = PaymentStatus.cancelled
cancelled_payment p = p

abbrev pub status_applied : Call → Text → OrderStatus → Order → Order
status_applied c reason OrderStatus.cancelled o = record o {
  status = OrderStatus.cancelled;
  cancellation_reason = or_else reason o.cancellation_reason;
  cancelled_at = some c.now;
  cancelled_by = c.actor;
  payment_status = cancelled_payment o.payment_status;
}
status_applied c reason OrderStatus.completed o = record o {
  status = OrderStatus.completed;
  delivered_at = some c.now;
}
status_applied c reason new o = record o { status = new }

unfoldable pub apply_order_status : Call → Text → OrderStatus → OrderGraph → OrderGraph
apply_order_status c reason new g =
    add_status_history
      record {
        old_status = g.order.status;
        new_status = new;
        changed_by = c.actor;
        reason = strip reason;
        correction_note = [];
        ip_address = client_ip c.request;
      }
      (put_order (status_applied c reason new g.order) g)

-- The store orders are those that the caller gives, or those of the table.
unfoldable pub sync_order_status_from_store_orders :
    Call → Option (List StoreOrder) → Text → OrderGraph → OrderGraph
sync_order_status_from_store_orders c given reason g =
    let rows = get_or g.store_orders given in
    let new = calculate_order_status_from_store_orders rows in
    if same_order_status new g.order.status then g else apply_order_status c reason new g
