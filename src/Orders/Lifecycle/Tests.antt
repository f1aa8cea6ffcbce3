-- ===== src/Orders/Lifecycle/Tests.antt =====
-- Uses of the theorems on the status, the payment and the totals of an order.
use zuvi_web.Prelude.{◌+◌, ◌≡◌, ◌≢◌, ◌⊎◌, ◌≤◌, refl, none, some, any, List, [], ◌∷◌, ◌++◌, arith}
use zuvi_web.Prelude.Text.{text, strip}
use zuvi_web.Prelude.Effect.{is_ok}
use zuvi_web.Orders.Model.{PaymentStatus, OrderStatus, StoreOrderStatus, StoreOrder}
use zuvi_web.Orders.Sync.{
  calculate_order_status, calculate_order_status_from_store_orders,
  sync_order_status_from_store_orders,
}
use zuvi_web.Orders.Sync.Rules.{
  described_status, calculate_order_status_described, calculate_order_status_kinds,
}
use zuvi_web.Orders.Sync.History.{sync_order_status_history, sync_order_status_again}
use zuvi_web.Orders.Transitions.{available_admin_order_status, available_admin_payment_status}
use zuvi_web.Orders.Management.{move_order, move_payment}
use zuvi_web.Orders.Management.Available.{move_order_available, move_payment_available}
use zuvi_web.Orders.Cancellation.{payable_totals}
use zuvi_web.Orders.Cancellation.Totals.{payable_totals_again, payable_totals_balance}
use zuvi_web.Orders.Lifecycle.{IsConsistent}
use zuvi_web.Orders.Lifecycle.Reachable.{
  IsFresh, here, next, customer_cancels, Reachable-IsConsistent,
}
use zuvi_web.Orders.StoreStatus.{ForwardAction, available_store_order_actions, forward_store_order}
use zuvi_web.Orders.StoreStatus.Available.{is_action, forward_store_order_available}
use zuvi_web.Orders.Lifecycle.Closed.{
  IsClosed, cancel_customer_order-IsClosed, cancel_order_by_admin-IsClosed,
}
use zuvi_web.Orders.Tests as Tests
use zuvi_web.Orders.Tests.{slices, placed_order, placed_graph, call, cancelled_graph, customer_why}

abbrev first_slice : StoreOrderStatus → StoreOrder
first_slice s = record {
  pk = 11;
  store = 7;
  store_order_number = text "SO-1";
  status = s;
  items_subtotal = 20000;
  delivery_charge = 500;
}

placed-IsFresh : IsFresh placed_graph
placed-IsFresh = record {
  placed = refl;
  unpaid = refl;
  waiting = (refl, (refl, tt));
  apart = (refl, (refl, tt));
}

Reachable-IsConsistent_example :
    IsConsistent (cancelled_graph customer_why).order (cancelled_graph customer_why).store_orders
Reachable-IsConsistent_example =
    Reachable-IsConsistent placed_graph (cancelled_graph customer_why) placed-IsFresh
      (next here (customer_cancels (call 100) 3 (text " late ") Tests.customer_cancels))

placed-IsConsistent : IsConsistent placed_graph.order placed_graph.store_orders
placed-IsConsistent = Reachable-IsConsistent placed_graph placed_graph placed-IsFresh here

abbrev mixed : List StoreOrderStatus
mixed = StoreOrderStatus.accepted ∷ StoreOrderStatus.rejected ∷ StoreOrderStatus.ready ∷ []

calculate_order_status_described_example : calculate_order_status mixed ≡ described_status mixed
calculate_order_status_described_example = calculate_order_status_described mixed

calculate_order_status_kinds_example :
    calculate_order_status (StoreOrderStatus.pending ∷ StoreOrderStatus.ready ∷ [])
    ≡ calculate_order_status
        (StoreOrderStatus.ready ∷ StoreOrderStatus.pending ∷ StoreOrderStatus.ready ∷ [])
calculate_order_status_kinds_example =
    calculate_order_status_kinds (StoreOrderStatus.pending ∷ StoreOrderStatus.ready ∷ [])
      (StoreOrderStatus.ready ∷ StoreOrderStatus.pending ∷ StoreOrderStatus.ready ∷ [])
      (λ k. ground arith)

abbrev rows : List StoreOrder
rows = slices StoreOrderStatus.accepted StoreOrderStatus.rejected

sync_order_status_again_example :
    let h =
      sync_order_status_from_store_orders (call 100) (some rows) (text "accept") placed_graph in
    sync_order_status_from_store_orders (call 200) (some rows) (text "again") h ≡ h
sync_order_status_again_example =
    sync_order_status_again (call 100) (call 200) rows (text "accept") (text "again") placed_graph

sync_order_status_history_example :
    let h =
      sync_order_status_from_store_orders (call 100) (some rows) (text "accept") placed_graph in
    let new_status = calculate_order_status_from_store_orders rows in
    (h.order.status ≡ new_status)
    × (((h ≡ placed_graph) × (OrderStatus.placed ≡ new_status))
        ⊎ ((OrderStatus.placed ≢ new_status)
            × (h.status_history
                ≡ placed_graph.status_history
                  ++ record {
                    old_status = OrderStatus.placed;
                    new_status = new_status;
                    changed_by = some 4;
                    reason = strip (text "accept");
                    correction_note = [];
                    ip_address = none;
                  }
                    ∷ [])))
sync_order_status_history_example =
    sync_order_status_history (call 100) (some rows) (text "accept") placed_graph

move_order_available_example :
    is_ok (move_order (call 100) (text "x") (text "note") OrderStatus.confirmed placed_graph)
    ≡ available_admin_order_status placed_graph OrderStatus.confirmed
move_order_available_example =
    move_order_available (call 100) (text "x") (text "note") OrderStatus.confirmed placed_graph refl
      refl

move_payment_available_example :
    is_ok (move_payment (call 100) (text "x") (text "note") PaymentStatus.collected placed_graph)
    ≡ available_admin_payment_status placed_order PaymentStatus.collected
move_payment_available_example =
    move_payment_available (call 100) (text "x") (text "note") PaymentStatus.collected placed_graph
      refl placed-IsConsistent

payable_totals_again_example :
    payable_totals rows (payable_totals rows placed_order) ≡ payable_totals rows placed_order
payable_totals_again_example = payable_totals_again rows placed_order

payable_totals_balance_example :
    let p = payable_totals rows placed_order in
    (p.discount_total ≤ p.items_subtotal)
    × (p.grand_total + p.discount_total ≡ p.items_subtotal + p.delivery_charge)
payable_totals_balance_example = payable_totals_balance rows placed_order (omega arith)

forward_store_order_available_example :
    is_ok (
      forward_store_order
        (call 100)
        (text "go")
        ForwardAction.accept
        (first_slice StoreOrderStatus.pending)
        placed_graph)
    ≡ any
        (is_action ForwardAction.accept)
        (available_store_order_actions (first_slice StoreOrderStatus.pending))
forward_store_order_available_example =
    forward_store_order_available (call 100) (text "go") ForwardAction.accept
      (first_slice StoreOrderStatus.pending) placed_graph

cancel_customer_order-IsClosed_example : IsClosed (cancelled_graph customer_why)
cancel_customer_order-IsClosed_example =
    cancel_customer_order-IsClosed (call 100) 3 (text " late ") placed_graph Tests.customer_cancels
      placed-IsConsistent

cancel_order_by_admin-IsClosed_example : IsClosed (cancelled_graph Tests.admin_why)
cancel_order_by_admin-IsClosed_example =
    cancel_order_by_admin-IsClosed (call 100) (text " late ") placed_graph Tests.admin_cancels
      placed-IsConsistent
