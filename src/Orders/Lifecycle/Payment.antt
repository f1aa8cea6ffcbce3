-- ===== src/Orders/Lifecycle/Payment.antt =====
-- The payment of an order, orders/management_status.py.
use zuvi_web.Prelude.{
  ℕ, ◌≡◌, sym, ◌∙◌, subst, true, false, Option, none, some, List, arith, inl, inr,
}
use zuvi_web.Prelude.Text.{Text, strip}
use zuvi_web.Prelude.Effect.{ok, running, ran, check-eq-ok, modified, unless-eq-ok}
use zuvi_web.Orders.Model.{
  PaymentStatus, OrderStatus, Order, StoreOrder, OrderGraph, Call, put_order, add_payment_history,
  same_order_status→eq, same_payment_status,
}
use zuvi_web.Orders.Transitions.{payment_status_transition, is_payment_status_reversal}
use zuvi_web.Orders.Management.{
  check_payment_move, moved_payment, payment_entry, move_payment, change_payment, change_payment_to,
  update_order_payment_status, read_payment_status,
}
use zuvi_web.Orders.Lifecycle.{IsConsistent}

-- A payment that may move is not that of a cancelled order, and is collected on delivery only.
payment-facts :
    (o : Order) (new : PaymentStatus) (note : Text)
    → check_payment_move o new note ≡ ok tt
    → (same_payment_status o.payment_status PaymentStatus.cancelled ≡ false)
      × (same_payment_status new PaymentStatus.collected ≡ true → o.status ≡ OrderStatus.completed)
unfolding check_payment_move payment_status_transition is_payment_status_reversal running
payment-facts o new note h = (ground arith, λ e. same_order_status→eq _ _ (ground arith))

moved_payment-fields :
    (now : ℕ) (new : PaymentStatus) (o : Order)
    → ((moved_payment now new o).status ≡ o.status)
      × ((moved_payment now new o).payment_status ≡ new)
moved_payment-fields now new o = ground arith

moved_payment-IsConsistent :
    (now : ℕ) (o : Order) (new : PaymentStatus) (note : Text) (rows : List StoreOrder)
    → check_payment_move o new note ≡ ok tt
    → IsConsistent o rows
    → IsConsistent (moved_payment now new o) rows
moved_payment-IsConsistent now o new note rows h v =
    let (alive, delivered) = payment-facts o new note h in
    let (same, moved) = moved_payment-fields now new o in
    record {
      apart = v.apart;
      collected = λ e. same ∙ delivered (ground (arith, sym moved ∙ e));
      delivered = λ e. v.delivered (sym same ∙ e);
      fulfilled = λ e. same ∙ v.fulfilled e;
      closed = λ e. v.closed (sym same ∙ e);
      released = λ e. ground (arith, v.released (sym same ∙ e), alive);
      emptied = λ e f. same ∙ v.emptied e f;
    }

move_payment-IsConsistent :
    (c : Call) (reason note : Text) (new : PaymentStatus) (g : OrderGraph)
    {r : Unit {0} × OrderGraph}
    → move_payment c reason note new g ≡ ok r
    → IsConsistent g.order g.store_orders
    → IsConsistent r.1.order r.1.store_orders
unfolding move_payment
move_payment-IsConsistent c reason note new g h v =
    let h₁ = ran g g _ h in
    let (valid, h₂) = check-eq-ok (check_payment_move g.order new note) _ g h₁ in
    let moved : OrderGraph = put_order (moved_payment c.now new g.order) g in
    let h₃ = ran tt moved _ h₂ in
    subst (λ (q : OrderGraph). IsConsistent q.order q.store_orders)
      (sym (modified (add_payment_history (payment_entry c reason note g.order new)) moved h₃))
      (moved_payment-IsConsistent c.now g.order new note g.store_orders valid v)

change_payment-IsConsistent :
    (c : Call) (reason note : Text) (new : PaymentStatus) (g : OrderGraph)
    {r : Unit {0} × OrderGraph}
    → change_payment c reason note new g ≡ ok r
    → IsConsistent g.order g.store_orders
    → IsConsistent r.1.order r.1.store_orders
unfolding change_payment
change_payment-IsConsistent c reason note new g h v =
    elim (unless-eq-ok (same_payment_status new g.order.payment_status)
      (move_payment c reason note new) g (ran g g _ h)) [
        | inl same ↦ subst (λ (q : OrderGraph). IsConsistent q.order q.store_orders) (sym same) v
        | inr moved ↦ move_payment-IsConsistent c reason note new g moved v
      ]

change_payment_to-IsConsistent :
    (c : Call) (reason note : Text) (new : Option PaymentStatus) (g : OrderGraph)
    {r : Unit {0} × OrderGraph}
    → change_payment_to c reason note new g ≡ ok r
    → IsConsistent g.order g.store_orders
    → IsConsistent r.1.order r.1.store_orders
unfolding change_payment_to
change_payment_to-IsConsistent c reason note none g h v = cc
change_payment_to-IsConsistent c reason note (some new) g h v =
    change_payment-IsConsistent c reason note new g h v

-- A change of an order's payment by the management keeps the order consistent.
pub update_order_payment_status-IsConsistent :
    (c : Call) (new_status reason note : Text) (g : OrderGraph) {r : Unit {0} × OrderGraph}
    → update_order_payment_status c new_status reason note g ≡ ok r
    → IsConsistent g.order g.store_orders
    → IsConsistent r.1.order r.1.store_orders
unfolding update_order_payment_status
update_order_payment_status-IsConsistent c new_status reason note g h v =
    change_payment_to-IsConsistent c reason (strip note) (read_payment_status new_status) g h v
