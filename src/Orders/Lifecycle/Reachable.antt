-- ===== src/Orders/Lifecycle/Reachable.antt =====
-- The life of an order, as the sequences of calls of the services of orders/ that return.
use zuvi_web.Prelude.{ℕ, ◌≡◌, refl, ap, ◌∙◌, Bool, false, not, Option, List, [], ◌∷◌, All, arith}
use zuvi_web.Prelude.Text.{Text}
use zuvi_web.Prelude.Effect.{ok}
use zuvi_web.Stores.{Store}
use zuvi_web.Orders.Model.{
  PaymentStatus, OrderStatus, StoreOrderStatus, StoreOrder, OrderGraph, Call,
}
use zuvi_web.Orders.Status.{non_chargeable}
use zuvi_web.Orders.Sync.{is_completed}
use zuvi_web.Orders.Sync.Rules.{chargeable}
use zuvi_web.Orders.Management.{update_order_status, update_order_payment_status}
use zuvi_web.Orders.Cancellation.{cancel_customer_order, cancel_order_by_admin}
use zuvi_web.Orders.StoreStatus.{transition_store_order}
use zuvi_web.Orders.Lifecycle.{some_row, ApartRows, IsConsistent}
use zuvi_web.Orders.Lifecycle.Moves.{update_order_status-IsConsistent}
use zuvi_web.Orders.Lifecycle.Payment.{update_order_payment_status-IsConsistent}
use zuvi_web.Orders.Lifecycle.Cancels.{
  cancel_customer_order-IsConsistent, cancel_order_by_admin-IsConsistent,
}
use zuvi_web.Orders.Lifecycle.Stores.{transition_store_order-IsConsistent}

-- An order as checkout leaves it.
pub record IsFresh (g : OrderGraph) : Type 0 where
  pub placed : g.order.status ≡ OrderStatus.placed
  pub unpaid : g.order.payment_status ≡ PaymentStatus.pending
  pub waiting : All (λ (so : StoreOrder). so.status ≡ StoreOrderStatus.pending) g.store_orders
  pub apart : ApartRows g.store_orders

-- One call that returned. A call that raises rolls its transaction back.
pub data Step (g h : OrderGraph) : Type 0 where
  store_moves :
      (c : Call) (caller : Option Store) (pk : ℕ) (key given : Text)
      → transition_store_order c caller pk key given g ≡ ok (tt, h)
      → Step g h
  customer_cancels :
      (c : Call) (customer : ℕ) (given : Text)
      → cancel_customer_order c customer given g ≡ ok (tt, h)
      → Step g h
  admin_cancels :
      (c : Call) (given : Text) → cancel_order_by_admin c given g ≡ ok (tt, h) → Step g h
  status_changes :
      (c : Call) (new_status reason note : Text)
      → update_order_status c new_status reason note g ≡ ok (tt, h)
      → Step g h
  payment_changes :
      (c : Call) (new_status reason note : Text)
      → update_order_payment_status c new_status reason note g ≡ ok (tt, h)
      → Step g h

pub data Reachable (start : OrderGraph) : OrderGraph → Type 0 where
  here : Reachable start start
  next : {g h : OrderGraph} → Reachable start g → Step g h → Reachable start h

waiting-rows :
    (p : StoreOrderStatus → Bool) (rows : List StoreOrder)
    → p StoreOrderStatus.pending ≡ false
    → All (λ (so : StoreOrder). so.status ≡ StoreOrderStatus.pending) rows
    → some_row p rows ≡ false
waiting-rows p [] h all = refl
waiting-rows p (r ∷ rows) h all =
    let here : p r.status ≡ false = ap p all.0 ∙ h in
    ground (arith, here, waiting-rows p rows h all.1)

fresh-IsConsistent : (g : OrderGraph) → IsFresh g → IsConsistent g.order g.store_orders
unfolding non_chargeable
fresh-IsConsistent g f =
    let done = waiting-rows is_completed g.store_orders refl f.waiting in
    let closed = waiting-rows (λ s. not (chargeable s)) g.store_orders refl f.waiting in
    record {
      apart = f.apart;
      collected = λ e. ground (arith, f.unpaid, e);
      delivered = λ e. ground (arith, f.placed, e);
      fulfilled = λ e. ground (arith, e, done);
      closed = λ e. ground (arith, f.placed, e);
      released = λ e. ground (arith, f.placed, e);
      emptied = λ a n. ground (arith, n, closed);
    }

-- A call that returns keeps an order consistent.
pub Step-IsConsistent :
    (g h : OrderGraph)
    → Step g h
    → IsConsistent g.order g.store_orders
    → IsConsistent h.order h.store_orders
Step-IsConsistent g h (store_moves c caller pk key given run) v =
    transition_store_order-IsConsistent c caller pk key given g run v
Step-IsConsistent g h (customer_cancels c customer given run) v =
    cancel_customer_order-IsConsistent c customer given g run v
Step-IsConsistent g h (admin_cancels c given run) v =
    cancel_order_by_admin-IsConsistent c given g run v
Step-IsConsistent g h (status_changes c new_status reason note run) v =
    update_order_status-IsConsistent c new_status reason note g run v
Step-IsConsistent g h (payment_changes c new_status reason note run) v =
    update_order_payment_status-IsConsistent c new_status reason note g run v

-- From a new order, by whatever calls of stores, customers and management that return, in whatever
-- order: a payment is collected only where the order is delivered; a delivered order has no store
-- order left to fulfil; a store order is completed only with its order; a cancelled order has only
-- cancelled and rejected store orders and a cancelled payment; and an order whose store orders are all
-- cancelled or rejected, of which there is one, is cancelled.
pub Reachable-IsConsistent :
    (start g : OrderGraph) → IsFresh start → Reachable start g → IsConsistent g.order g.store_orders
Reachable-IsConsistent start g f here = fresh-IsConsistent start f
Reachable-IsConsistent start g f (next {g = before} past step) =
    Step-IsConsistent before g step (Reachable-IsConsistent start before f past)
