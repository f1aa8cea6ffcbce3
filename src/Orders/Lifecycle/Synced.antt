-- ===== src/Orders/Lifecycle/Synced.antt =====
-- The status that is calculated from the store orders, orders/order_status_sync.py, and the store
-- orders agree.
use zuvi_web.Prelude.{
  ◌≡◌, refl, sym, ◌∙◌, true, false, not, Option, List, map, get_or, if◌then◌else◌, arith, inl, inr,
  Bool-cases,
}
use zuvi_web.Prelude.Text.{Text}
use zuvi_web.Orders.Model.{
  PaymentStatus, OrderStatus, Order, StoreOrder, OrderGraph, Call, same_order_status,
  same_order_status→eq,
}
use zuvi_web.Orders.Status.{non_chargeable}
use zuvi_web.Orders.Sync.{
  calculate_order_status_from_store_orders, status_applied, apply_order_status,
  sync_order_status_from_store_orders, cancelled_payment, is_completed,
}
use zuvi_web.Orders.Sync.Rules.{
  chargeable, unfinished, begun, advanced, calculate_order_status_described,
}
use zuvi_web.Orders.Lifecycle.{some_row, ApartRows, IsConsistent}
use zuvi_web.Orders.Lifecycle.Rows.{any-statuses}
use zuvi_web.Orders.Lifecycle.Cascade.{some_row-ext}
use zuvi_web.Orders.Lifecycle.Moves.{parts-chargeable}

module _ (rows : List StoreOrder) where
  charged-parts : some_row non_chargeable rows ≡ some_row (λ s. not (chargeable s)) rows
  unfolding non_chargeable
  charged-parts = some_row-ext non_chargeable (λ s. not (chargeable s)) rows (λ s. ground arith)

  -- The calculated status by the rows.
  calculated : calculate_order_status_from_store_orders rows ≡ (
      if some_row chargeable rows
      then if some_row unfinished rows
        then if some_row (λ s. not (chargeable s)) rows
          then OrderStatus.partially_cancelled
          else if some_row advanced rows
          then OrderStatus.in_progress
          else if some_row begun rows
          then OrderStatus.confirmed
          else OrderStatus.placed
        else OrderStatus.completed
      else if some_row (λ s. not (chargeable s)) rows
      then OrderStatus.cancelled
      else OrderStatus.placed)
  unfolding calculate_order_status_from_store_orders non_chargeable
  calculated =
      let ss = map (λ (so : StoreOrder). so.status) rows in
      calculate_order_status_described ss
      ∙ rw
          (
            any-statuses chargeable rows,
            any-statuses unfinished rows,
            any-statuses non_chargeable rows,
            any-statuses advanced rows,
            any-statuses begun rows,
            charged-parts,
          )
          refl

  pub calculated-completed :
      calculate_order_status_from_store_orders rows ≡ OrderStatus.completed
      → some_row unfinished rows ≡ false
  calculated-completed h = ground (arith, sym calculated ∙ h, parts-chargeable rows)

  pub completed-calculated :
      some_row is_completed rows ≡ true
      → some_row unfinished rows ≡ false
      → calculate_order_status_from_store_orders rows ≡ OrderStatus.completed
  completed-calculated d u = calculated ∙ ground (arith, parts-chargeable rows)

  pub calculated-cancelled :
      calculate_order_status_from_store_orders rows ≡ OrderStatus.cancelled
      → some_row chargeable rows ≡ false
  calculated-cancelled h = ground (arith, sym calculated ∙ h)

  pub cancelled-calculated :
      some_row chargeable rows ≡ false
      → some_row (λ s. not (chargeable s)) rows ≡ true
      → calculate_order_status_from_store_orders rows ≡ OrderStatus.cancelled
  cancelled-calculated a n = calculated ∙ ground arith

status_applied-fields :
    (c : Call) (reason : Text) (new : OrderStatus) (o : Order)
    → ((status_applied c reason new o).status ≡ new)
      × ((status_applied c reason new o).payment_status ≡ (
          if same_order_status new OrderStatus.cancelled
          then cancelled_payment o.payment_status
          else o.payment_status))
status_applied-fields c reason new o = ground arith

-- What the status of an order must satisfy with its store orders before they are counted.
pub record IsCountable (o : Order) (rows : List StoreOrder) : Type 0 where
  pub apart : ApartRows rows
  pub collected :
      o.payment_status ≡ PaymentStatus.collected
      → calculate_order_status_from_store_orders rows ≡ OrderStatus.completed
  pub released : o.status ≡ OrderStatus.cancelled → o.payment_status ≡ PaymentStatus.cancelled
  pub together : some_row is_completed rows ≡ true → some_row unfinished rows ≡ false

module _ (o : Order) (rows : List StoreOrder) (v : IsCountable o rows) where
  same-IsConsistent : calculate_order_status_from_store_orders rows ≡ o.status → IsConsistent o rows
  same-IsConsistent e = record {
    apart = v.apart;
    collected = λ p. sym e ∙ v.collected p;
    delivered = λ s. calculated-completed rows (e ∙ s);
    fulfilled = λ d. sym e ∙ completed-calculated rows d (v.together d);
    closed = λ s. calculated-cancelled rows (e ∙ s);
    released = v.released;
    emptied = λ a n. sym e ∙ cancelled-calculated rows a n;
  }

  applied-IsConsistent :
      (c : Call) (reason : Text)
      → IsConsistent
          (status_applied c reason (calculate_order_status_from_store_orders rows) o)
          rows
  applied-IsConsistent c reason =
      let st = calculate_order_status_from_store_orders rows in
      let (s, p) = status_applied-fields c reason st o in
      record {
        apart = v.apart;
        collected = λ e. s ∙ ground (arith, sym p ∙ e, v.collected);
        delivered = λ e. calculated-completed rows (sym s ∙ e);
        fulfilled = λ d. s ∙ completed-calculated rows d (v.together d);
        closed = λ e. calculated-cancelled rows (sym s ∙ e);
        released = λ e. p ∙ ground (arith, sym s ∙ e, v.collected);
        emptied = λ a n. s ∙ cancelled-calculated rows a n;
      }

-- The order after the calculation from `rows`.
pub sync-IsConsistent :
    (c : Call) (given : Option (List StoreOrder)) (reason : Text) (g : OrderGraph)
    → IsCountable g.order (get_or g.store_orders given)
    → IsConsistent
        (sync_order_status_from_store_orders c given reason g).order
        (get_or g.store_orders given)
unfolding sync_order_status_from_store_orders apply_order_status
sync-IsConsistent c given reason g v =
    let rows = get_or g.store_orders given in
    let st = calculate_order_status_from_store_orders rows in
    elim (Bool-cases (same_order_status st g.order.status)) [
      | inl e ↦ rw e (same-IsConsistent g.order rows v (same_order_status→eq st g.order.status e))
      | inr e ↦ rw e (applied-IsConsistent g.order rows v c reason)
    ]

pub sync-keeps :
    (c : Call) (given : Option (List StoreOrder)) (reason : Text) (g : OrderGraph)
    → (sync_order_status_from_store_orders c given reason g).store_orders ≡ g.store_orders
unfolding sync_order_status_from_store_orders apply_order_status
sync-keeps c given reason g = ground arith
