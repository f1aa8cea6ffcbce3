-- ===== src/Orders/Sync/History.antt =====
-- The history that `sync_order_status_from_store_orders` writes, orders/order_status_sync.py.
use zuvi_web.Prelude.{
  ◌≡◌, ◌≢◌, ◌⊎◌, refl, sym, false, Option, some, List, [], ◌∷◌, ◌++◌, get_or, arith, Bool-cases,
  inl, inr,
}
use zuvi_web.Prelude.Text.{Text, strip}
use zuvi_web.Orders.Model.{
  OrderStatus, Order, StoreOrder, OrderGraph, Call, client_ip, same_order_status,
  same_order_status→eq,
}
use zuvi_web.Orders.Sync.{
  calculate_order_status_from_store_orders, status_applied, apply_order_status,
  sync_order_status_from_store_orders,
}

applied-status :
    (c : Call) (why : Text) (new : OrderStatus) (o : Order)
    → (status_applied c why new o).status ≡ new
applied-status c why new o = ground arith

different : (a b : OrderStatus) → same_order_status a b ≡ false → b ≢ a
different a b h e = ground (arith, e)

module _ (c : Call) (given : Option (List StoreOrder)) (why : Text) (g : OrderGraph) where
  abbrev new_status : OrderStatus
  new_status = calculate_order_status_from_store_orders (get_or g.store_orders given)

  synced-status : (sync_order_status_from_store_orders c given why g).order.status ≡ new_status
  unfolding sync_order_status_from_store_orders apply_order_status
  synced-status = elim (Bool-cases (same_order_status new_status g.order.status)) [
    | inl e ↦ rw e (sym (same_order_status→eq new_status g.order.status e))
    | inr e ↦ rw e (applied-status c why new_status g.order)
  ]

  -- Either nothing changes, and the status was the calculated one, or one row of history is added, from
  -- the old status to the calculated one, which differ.
  pub sync_order_status_history :
      let h = sync_order_status_from_store_orders c given why g in
      (h.order.status ≡ new_status)
      × (((h ≡ g) × (g.order.status ≡ new_status))
          ⊎ ((g.order.status ≢ new_status)
              × (h.status_history
                  ≡ g.status_history
                    ++ record {
                      old_status = g.order.status;
                      new_status = new_status;
                      changed_by = c.actor;
                      reason = strip why;
                      correction_note = [];
                      ip_address = client_ip c.request;
                    }
                      ∷ [])))
  unfolding sync_order_status_from_store_orders apply_order_status
  sync_order_status_history = elim (Bool-cases (same_order_status new_status g.order.status)) [
    | inl e ↦
        (synced-status, inl (rw e refl, sym (same_order_status→eq new_status g.order.status e)))
    | inr e ↦ (synced-status, inr (different new_status g.order.status e, rw e refl))
  ]

-- A second synchronization with the same store orders changes nothing.
pub sync_order_status_again :
    (c c' : Call) (rows : List StoreOrder) (why why' : Text) (g : OrderGraph)
    → let h = sync_order_status_from_store_orders c (some rows) why g in
      sync_order_status_from_store_orders c' (some rows) why' h ≡ h
unfolding sync_order_status_from_store_orders
sync_order_status_again c c' rows why why' g =
    elim (sync_order_status_history c' (some rows) why'
      (sync_order_status_from_store_orders c (some rows) why g)).1 [
        | inl (same, status) ↦ same
        | inr (differ, history) ↦ absurd (differ (synced-status c (some rows) why g))
      ]
