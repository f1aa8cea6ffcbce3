-- ===== src/Orders/Cancellation.antt =====
-- orders/cancellation.py: an order is cancelled by its customer or by the management, a store order is
-- rejected by its store, and the stock of the lines comes back once.
pub mod Totals
pub mod Steps
pub mod Effects
pub mod Settled
pub mod Again
pub mod Units
pub mod Stock
pub mod Returns
use zuvi_web.Prelude.{
  ℕ, ◌+◌, ◌-◌, ◌*◌, ◌/◌, ◌%◌, Bool, true, false, not, ◌&&◌, ◌||◌, Option, none, some, List, [], ◌∷◌,
  ◌++◌, any, select, find, sum_of, leb, ltb, ◌==◌, if◌then◌else◌,
}
use zuvi_web.Prelude.Text.{Text, text, strip, is_empty, decimal}
use zuvi_web.Prelude.Effect.{
  Result, ok, err, raise_when, validation, reason, actor, store_order, permission_denied, key_error,
  does_not_exist, Action, pure, get, modify, lift, raise_if, or_raise, and_then, ◌>>=◌, ◌>>◌,
}
use zuvi_web.Decimal.{of_thousandths, round_half_even}
use zuvi_web.Inventory.Model.{Inventory, product_row, InventoryTransaction}
use zuvi_web.Inventory.OrderStock.{OrderMovement, order_item_restore_reference, restore_order_stock}
use zuvi_web.Orders.Model.{
  PaymentStatus, OrderStatus, StoreOrderStatus, Order, StoreOrder, OrderItem, OrderStatusHistory,
  StoreOrderStatusHistory, OrderGraph, Call, client_ip, put_order, put_store_order, put_order_item,
  replace_store_order, add_status_history, add_store_status_history,
}
use zuvi_web.Orders.Status.{
  non_chargeable, store_order_active, customer_cancelable_store, is_cancelled_order,
  is_rejected_status, validate_customer_order_cancellation, validate_admin_order_cancellation,
  validate_store_order_rejection,
}
use zuvi_web.Orders.Sync.{cancelled_payment, is_completed, sync_order_status_from_store_orders}
use zuvi_web.Orders.Lines.{
  is_among, mark_cancelled, mark_order_items_cancelled, mark_rejected, mark_order_items_rejected,
  put_inventory, in_inventory, quantity_text, restoration, restore_item, restore_unless,
  restore_items, restore_order_items_stock,
}

unfoldable pub require_reason : Text → Result Text
require_reason given = raise_when (is_empty (strip given)) (validation reason) (ok (strip given))

unfoldable pub cancel_store_order_row : Call → Text → StoreOrder → OrderGraph → OrderGraph
cancel_store_order_row c given so g =
    if non_chargeable so.status || is_completed so.status
    then g
    else add_store_status_history
        record {
          store_order = so.pk;
          old_status = so.status;
          new_status = StoreOrderStatus.cancelled;
          changed_by = c.actor;
          reason = given;
          ip_address = client_ip c.request;
        }
        (put_store_order (record so { status = StoreOrderStatus.cancelled }) g)

-- The loop over the store orders that may be cancelled.
unfoldable pub cancel_store_orders :
    (StoreOrderStatus → Bool) → Call → Text → List StoreOrder → OrderGraph → OrderGraph
cancel_store_orders may c given [] g = g
cancel_store_orders may c given (so ∷ rows) g =
    cancel_store_orders may c given rows
      (if may so.status then cancel_store_order_row c given so g else g)

unfoldable pub mark_order_cancelled : Call → Text → OrderGraph → OrderGraph
mark_order_cancelled c given g =
    if is_cancelled_order g.order
    then g
    else add_status_history
        record {
          old_status = g.order.status;
          new_status = OrderStatus.cancelled;
          changed_by = c.actor;
          reason = given;
          correction_note = [];
          ip_address = client_ip c.request;
        }
        (put_order
          (record g.order {
            status = OrderStatus.cancelled;
            cancellation_reason = given;
            cancelled_at = some c.now;
            cancelled_by = c.actor;
            payment_status = cancelled_payment g.order.payment_status;
          })
          g)

abbrev pub chargeable_rows : List StoreOrder → List StoreOrder
chargeable_rows rows = select (λ (so : StoreOrder). not (non_chargeable so.status)) rows

abbrev pub no_rows : List StoreOrder → Bool
no_rows [] = true
no_rows (_ ∷ _) = false

-- The part of a discount that the remaining lines keep.
unfoldable pub scaled_discount : Bool → (discount subtotal previous : ℕ) → ℕ
scaled_discount nothing discount subtotal previous =
    if nothing || leb discount 0 || leb previous 0
    then 0
    else round_half_even (discount * subtotal) previous

-- The totals of an order with these store orders.
unfoldable pub payable_totals : List StoreOrder → Order → Order
payable_totals rows o =
    let chargeable = chargeable_rows rows in
    let items_subtotal = sum_of (λ (so : StoreOrder). so.items_subtotal) chargeable in
    let delivery_charge = sum_of (λ (so : StoreOrder). so.delivery_charge) chargeable in
    let discount_total =
      scaled_discount (no_rows chargeable) o.discount_total items_subtotal o.items_subtotal in
    record o {
      items_subtotal = items_subtotal;
      delivery_charge = delivery_charge;
      discount_total = discount_total;
      grand_total =
          if ltb (items_subtotal + delivery_charge) discount_total
          then 0
          else items_subtotal + delivery_charge - discount_total;
    }

unfoldable pub recalculate_order_payable_totals : List StoreOrder → OrderGraph → OrderGraph
recalculate_order_payable_totals rows g = put_order (payable_totals rows g.order) g

-- What the two cancellations share: the rows are cancelled, unless they are already, the stock comes
-- back, and the totals drop.
unfoldable pub cancel_rows : (StoreOrderStatus → Bool) → Call → Text → OrderGraph → OrderGraph
cancel_rows may c given g =
    if is_cancelled_order g.order
    then g
    else mark_order_items_cancelled c.now g.order_items
        (mark_order_cancelled c given (cancel_store_orders may c given g.store_orders g))

unfoldable pub cancel_graph :
    (StoreOrderStatus → Bool) → Call → (given restored : Text) → Action OrderGraph (Unit {0})
cancel_graph may c given restored = do
  g ← get
  modify (cancel_rows may c given)
  restore_order_items_stock c restored g.order_items
  modify (mark_order_items_cancelled c.now g.order_items)
  modify (λ h. recalculate_order_payable_totals h.store_orders h)

unfoldable pub cancel_customer_order : Call → (customer : ℕ) → Text → Action OrderGraph (Unit {0})
cancel_customer_order c customer given = do
  g ← get
  raise_if (not (g.order.customer == customer)) permission_denied
  cleaned ← lift (require_reason given)
  lift (validate_customer_order_cancellation g.order g.store_orders)
  cancel_graph customer_cancelable_store c cleaned
      (text "Customer cancellation of " ++ (g.order.order_number ++ (text ": " ++ cleaned)))

abbrev pub no_actor : Option ℕ → Bool
no_actor none = true
no_actor (some _) = false

unfoldable pub cancel_order_by_admin : Call → Text → Action OrderGraph (Unit {0})
cancel_order_by_admin c given = do
  raise_if (no_actor c.actor) (validation actor)
  g ← get
  cleaned ← lift (require_reason given)
  lift (validate_admin_order_cancellation g.order)
  cancel_graph store_order_active c cleaned
      (text "Admin cancellation of " ++ (g.order.order_number ++ (text ": " ++ cleaned)))

-- The row of the rejected store order and its history, unless it is rejected already.
unfoldable pub reject_row : Call → Text → StoreOrder → List OrderItem → OrderGraph → OrderGraph
reject_row c given so items g =
    if is_rejected_status so.status
    then g
    else mark_order_items_rejected c.now items (
        add_store_status_history
          record {
            store_order = so.pk;
            old_status = so.status;
            new_status = StoreOrderStatus.rejected;
            changed_by = c.actor;
            reason = given;
            ip_address = client_ip c.request;
          }
          (put_store_order (record so { status = StoreOrderStatus.rejected }) g))

-- `pk` is the store order's key, `store` the caller's store.
unfoldable pub reject_store_order : Call → (pk store : ℕ) → Text → Action OrderGraph (Unit {0})
reject_store_order c pk store given = do
  g ← get
  so ← or_raise (validation store_order) (find (λ (so : StoreOrder). so.pk == pk) g.store_orders)
  raise_if (not (so.store == store)) permission_denied
  cleaned ← lift (require_reason given)
  lift (validate_store_order_rejection so)
  let items = select (λ (i : OrderItem). i.store_order == so.pk) g.order_items
  let rows = replace_store_order (record so { status = StoreOrderStatus.rejected }) g.store_orders
  modify (reject_row c cleaned so items)
  restore_order_items_stock c
      (text "Store rejection of " ++ (so.store_order_number ++ (text ": " ++ cleaned))) items
  modify (mark_order_items_rejected c.now items)
  modify
      (sync_order_status_from_store_orders c (some rows) (text "Store order rejected: " ++ cleaned))
  modify (recalculate_order_payable_totals rows)
