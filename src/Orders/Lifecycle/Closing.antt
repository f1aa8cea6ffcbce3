-- ===== src/Orders/Lifecycle/Closing.antt =====
-- Store orders that a cancellation closes, orders/cancellation.py.
use zuvi_web.Prelude.{
  ◌≡◌, refl, ◌∙◌, subst, Bool, true, false, not, ◌&&◌, ◌||◌, List, [], ◌∷◌, All, if◌then◌else◌,
  arith, inl, inr, Bool-cases,
}
use zuvi_web.Prelude.Text.{Text}
use zuvi_web.Orders.Model.{
  PaymentStatus, OrderStatus, StoreOrderStatus, Order, StoreOrder, OrderGraph, Call,
  replace_store_order,
}
use zuvi_web.Orders.Status.{non_chargeable, is_cancelled_order}
use zuvi_web.Orders.Sync.{is_completed, cancelled_payment}
use zuvi_web.Orders.Sync.Rules.{chargeable}
use zuvi_web.Orders.Cancellation.{
  cancel_store_order_row, cancel_store_orders, mark_order_cancelled, payable_totals,
}
use zuvi_web.Orders.Lifecycle.{some_row, IsConsistent}
use zuvi_web.Orders.Lifecycle.Sweep.{Sweep, saved, done, save, skip, Sweep-apart, Sweep-all}
use zuvi_web.Orders.Lifecycle.Cascade.{some_row-ext}
use zuvi_web.Orders.Lifecycle.Moves.{parts-chargeable}

-- A store order that the loop leaves closed.
abbrev pub Closable : (StoreOrderStatus → Bool) → StoreOrder → Type 0
Closable may so =
    (non_chargeable so.status || (may so.status && not (is_completed so.status))) ≡ true

abbrev pub always : StoreOrderStatus → Bool
always s = true

pub cancelled_not_chargeable : non_chargeable StoreOrderStatus.cancelled ≡ true
unfolding non_chargeable
cancelled_not_chargeable = refl

pub cancel_one-stays :
    (b : Bool) (c : Call) (given : Text) (so : StoreOrder) (g : OrderGraph)
    → non_chargeable so.status ≡ true
    → (if b then cancel_store_order_row c given so g else g).store_orders ≡ g.store_orders
unfolding cancel_store_order_row
cancel_one-stays b c given so g h = ground (arith, h)

pub cancel_one-saves :
    (c : Call) (given : Text) (so : StoreOrder) (g : OrderGraph)
    → non_chargeable so.status ≡ false
    → is_completed so.status ≡ false
    → (cancel_store_order_row c given so g).store_orders
      ≡ replace_store_order (saved so StoreOrderStatus.cancelled) g.store_orders
unfolding cancel_store_order_row
cancel_one-saves c given so g h k = ground (arith, h, k)

module _ (may : StoreOrderStatus → Bool) (c : Call) (given : Text) where
  pub cancel-Sweep :
      (items : List StoreOrder) (g : OrderGraph)
      → All (Closable may) items
      → Sweep non_chargeable always items g.store_orders
          (cancel_store_orders may c given items g).store_orders
  unfolding cancel_store_orders
  cancel-Sweep [] g all = done
  cancel-Sweep (so ∷ items) g all =
      let k = if may so.status then cancel_store_order_row c given so g else g in
      let rest = cancel-Sweep items k all.1 in
      let Rest : List StoreOrder → Type 0 = λ rows.
        Sweep non_chargeable always items rows
          (cancel_store_orders may c given items k).store_orders in
      elim (Bool-cases (non_chargeable so.status)) [
        | inl e ↦ skip so e (subst Rest (cancel_one-stays (may so.status) c given so g e) rest)
        | inr e ↦
            let allowed : may so.status ≡ true = ground (arith, e, all.0) in
            let undone : is_completed so.status ≡ false = ground (arith, e, all.0) in
            let rows : k.store_orders
                ≡ replace_store_order (saved so StoreOrderStatus.cancelled) g.store_orders =
              rw allowed (cancel_one-saves c given so g e undone) in
            save so StoreOrderStatus.cancelled cancelled_not_chargeable refl (subst Rest rows rest)
      ]

-- The totals do not count.
pub payable-IsConsistent :
    (o : Order) (rows some_rows : List StoreOrder)
    → IsConsistent o rows
    → IsConsistent (payable_totals some_rows o) rows
unfolding payable_totals
payable-IsConsistent o rows some_rows v = record {
  apart = v.apart;
  collected = v.collected;
  delivered = v.delivered;
  fulfilled = v.fulfilled;
  closed = v.closed;
  released = v.released;
  emptied = v.emptied;
}

pub closed-chargeable :
    (rows : List StoreOrder)
    → some_row (λ s. not (non_chargeable s)) rows ≡ false
    → some_row chargeable rows ≡ false
unfolding non_chargeable
closed-chargeable rows h =
    some_row-ext chargeable (λ s. not (non_chargeable s)) rows (λ s. refl) ∙ h

pub mark_order_cancelled-payment :
    (c : Call) (given : Text) (g : OrderGraph)
    → is_cancelled_order g.order ≡ false
    → ((mark_order_cancelled c given g).order.payment_status
        ≡ cancelled_payment g.order.payment_status)
      × ((mark_order_cancelled c given g).order.status ≡ OrderStatus.cancelled)
unfolding mark_order_cancelled
mark_order_cancelled-payment c given g h = ground (arith, h)

-- The rows and the order after the loop.
pub cancelled-IsConsistent :
    (o : Order) (rows rows' : List StoreOrder)
    → Sweep non_chargeable always rows rows rows'
    → o.status ≡ OrderStatus.cancelled
    → o.payment_status ≡ PaymentStatus.cancelled
    → (p : Order) → IsConsistent p rows
    → IsConsistent o rows'
unfolding non_chargeable
cancelled-IsConsistent o rows rows' w gone paid p v =
    let shut = closed-chargeable rows' (Sweep-all non_chargeable always w) in
    record {
      apart = Sweep-apart non_chargeable always w v.apart;
      collected = λ e. ground (arith, e, paid);
      delivered = λ e. ground (arith, e, gone);
      fulfilled = λ e. ground (arith, e, shut, parts-chargeable rows');
      closed = λ e. shut;
      released = λ e. paid;
      emptied = λ a n. gone;
    }
