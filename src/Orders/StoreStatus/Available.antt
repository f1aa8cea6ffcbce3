-- ===== src/Orders/StoreStatus/Available.antt =====
-- What the store portal offers, orders/store_status.py, and what its services accept.
use zuvi_web.Prelude.{◌≡◌, Bool, true, false, any, arith}
use zuvi_web.Prelude.Text.{Text}
use zuvi_web.Prelude.Effect.{is_ok, running}
use zuvi_web.Orders.Model.{StoreOrder, OrderGraph, Call}
use zuvi_web.Orders.StoreStatus.{
  ForwardAction, accept, processing, ready, StoreAction, forward, source_status,
  available_store_order_actions, forward_store_order,
}

abbrev pub is_action : ForwardAction → StoreAction → Bool
is_action accept (forward accept) = true
is_action processing (forward processing) = true
is_action ready (forward ready) = true
is_action _ _ = false

-- A forward action is accepted exactly where it is on offer.
pub forward_store_order_available :
    (c : Call) (given : Text) (a : ForwardAction) (so : StoreOrder) (g : OrderGraph)
    → is_ok (forward_store_order c given a so g)
      ≡ any (is_action a) (available_store_order_actions so)
unfolding forward_store_order available_store_order_actions source_status running
forward_store_order_available c given a so g = ground arith
