-- ===== src/Orders/Cancellation/Again.antt =====
-- A cancellation that is asked for again, orders/cancellation.py.
use zuvi_web.Prelude.{ℕ, ◌≡◌, true, some, ◌++◌, arith}
use zuvi_web.Prelude.Text.{Text, text}
use zuvi_web.Prelude.Effect.{ok, running}
use zuvi_web.Orders.Model.{OrderGraph, Call}
use zuvi_web.Orders.Status.{
  customer_cancelable_store, store_order_active, is_cancelled_order,
  validate_customer_order_cancellation, validate_admin_order_cancellation,
}
use zuvi_web.Orders.Cancellation.{require_reason, cancel_customer_order, cancel_order_by_admin}
use zuvi_web.Orders.Cancellation.Settled.{
  cancel_graph_idle, cancel_customer_order-Settled, cancel_order_by_admin-Settled,
}

-- A customer's cancellation that returned can be asked for again, at any time and with any reason
-- that is not blank: it returns, and changes nothing of the order, its rows, its histories and the
-- stock.
pub cancel_customer_order_again :
    (c c' : Call) (customer : ℕ) (given given' cleaned : Text) (g : OrderGraph)
    {r : Unit {0} × OrderGraph}
    → cancel_customer_order c customer given g ≡ ok r
    → require_reason given' ≡ ok cleaned
    → cancel_customer_order c' customer given' r.1 ≡ ok (tt, r.1)
unfolding cancel_customer_order validate_customer_order_cancellation running
cancel_customer_order_again c c' customer given given' cleaned g {r} h reasoned =
    let (settled, own) = cancel_customer_order-Settled c customer given g h in
    let number : Text = r.1.order.order_number in
    let gone : is_cancelled_order r.1.order ≡ true = settled.cancelled in
    let idle =
      cancel_graph_idle customer_cancelable_store c' cleaned
        (text "Customer cancellation of " ++ (number ++ (text ": " ++ cleaned))) r.1 settled in
    ground (arith, own, reasoned, gone, idle)

-- An administrative cancellation that returned can be asked for again, by any administrator, at any
-- time and with any reason that is not blank: it returns, and changes nothing.
pub cancel_order_by_admin_again :
    (c c' : Call) (admin : ℕ) (given given' cleaned : Text) (g : OrderGraph)
    {r : Unit {0} × OrderGraph}
    → cancel_order_by_admin c given g ≡ ok r
    → c'.actor ≡ some admin
    → require_reason given' ≡ ok cleaned
    → cancel_order_by_admin c' given' r.1 ≡ ok (tt, r.1)
unfolding cancel_order_by_admin validate_admin_order_cancellation running
cancel_order_by_admin_again c c' admin given given' cleaned g {r} h acting reasoned =
    let settled = cancel_order_by_admin-Settled c given g h in
    let number : Text = r.1.order.order_number in
    let gone : is_cancelled_order r.1.order ≡ true = settled.cancelled in
    let idle =
      cancel_graph_idle store_order_active c' cleaned
        (text "Admin cancellation of " ++ (number ++ (text ": " ++ cleaned))) r.1 settled in
    ground (arith, acting, reasoned, gone, idle)
