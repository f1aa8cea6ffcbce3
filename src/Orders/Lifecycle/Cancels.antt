-- ===== src/Orders/Lifecycle/Cancels.antt =====
-- The two cancellations, orders/cancellation.py, keep an order consistent and close it.
use zuvi_web.Prelude.{
  ℕ, ◌≡◌, sym, ap, ◌∙◌, subst, Bool, false, not, List, [], ◌∷◌, ◌++◌, any, All, ◌==◌, arith, inl,
  inr, Bool-cases,
}
use zuvi_web.Prelude.Text.{Text, text}
use zuvi_web.Prelude.Effect.{
  ok, running, ran, lift-eq-ok, check-eq-ok, raise_if-eq-ok, and_then-eq-ok, modified,
  permission_denied, validation, actor,
}
use zuvi_web.Orders.Model.{PaymentStatus, StoreOrderStatus, Order, StoreOrder, OrderGraph, Call}
use zuvi_web.Orders.Status.{
  non_chargeable, customer_cancellable, admin_cancellable, customer_cancel_blocking,
  customer_cancelable_store, store_order_active, is_cancelled_order,
  validate_customer_order_cancellation, validate_admin_order_cancellation,
}
use zuvi_web.Orders.Sync.{is_completed, cancelled_payment}
use zuvi_web.Orders.Lines.{mark_order_items_cancelled, restore_order_items_stock}
use zuvi_web.Orders.Cancellation.{
  require_reason, no_actor, cancel_store_orders, mark_order_cancelled,
  recalculate_order_payable_totals, cancel_rows, cancel_graph, cancel_customer_order,
  cancel_order_by_admin,
}
use zuvi_web.Orders.Cancellation.Effects.{restore_order_items_stock-Keeps}
use zuvi_web.Orders.Cancellation.Settled.{cancel_store_orders-keeps, mark_order_cancelled-keeps}
use zuvi_web.Orders.Lifecycle.{some_row, IsConsistent}
use zuvi_web.Orders.Lifecycle.Closing.{
  Closable, cancel-Sweep, payable-IsConsistent, mark_order_cancelled-payment,
  cancelled-IsConsistent,
}

-- What the validation of a cancellation has to give.
abbrev Cancellable : (StoreOrderStatus → Bool) → Order → List StoreOrder → Type 0
Cancellable may o rows =
    is_cancelled_order o ≡ false
    → All (Closable may) rows × (cancelled_payment o.payment_status ≡ PaymentStatus.cancelled)

module _ (may : StoreOrderStatus → Bool) (c : Call) (given : Text) where
  cancel_rows-IsConsistent :
      (g : OrderGraph)
      → Cancellable may g.order g.store_orders
      → IsConsistent g.order g.store_orders
      → IsConsistent (cancel_rows may c given g).order (cancel_rows may c given g).store_orders
  unfolding cancel_rows mark_order_items_cancelled
  cancel_rows-IsConsistent g allowed v =
      let k = cancel_store_orders may c given g.store_orders g in
      let h = mark_order_cancelled c given k in
      let (order, items) = cancel_store_orders-keeps may c given g.store_orders g in
      let (items', rows, gone, customer) = mark_order_cancelled-keeps c given k in
      elim (Bool-cases (is_cancelled_order g.order)) [
        | inl e ↦ rw e v
        | inr e ↦
            let (closable, payment) = allowed e in
            let w = cancel-Sweep may c given g.store_orders g closable in
            let (paid, shut) =
              mark_order_cancelled-payment c given k
                (ap (λ (o : Order). is_cancelled_order o) order ∙ e) in
            rw e (
              subst (IsConsistent h.order) (sym rows) (
                cancelled-IsConsistent h.order g.store_orders k.store_orders w shut
                  (paid ∙ ap (λ (o : Order). cancelled_payment o.payment_status) order ∙ payment)
                  g.order v))
      ]

  cancel_graph-IsConsistent :
      (restored : Text) (g : OrderGraph) {r : Unit {0} × OrderGraph}
      → cancel_graph may c given restored g ≡ ok r
      → Cancellable may g.order g.store_orders
      → IsConsistent g.order g.store_orders
      → IsConsistent r.1.order r.1.store_orders
  unfolding cancel_graph recalculate_order_payable_totals mark_order_items_cancelled
  cancel_graph-IsConsistent restored g {r} h allowed v =
      let items = g.order_items in
      let k₀ = cancel_rows may c given g in
      let h₁ = ran tt k₀ _ (ran g g _ h) in
      let (u, k₁, e₁, h₂) = and_then-eq-ok (restore_order_items_stock c restored items k₀) _ h₁ in
      let kept = (restore_order_items_stock-Keeps c restored items k₀ e₁).0 in
      let k₂ : OrderGraph = mark_order_items_cancelled c.now items k₁ in
      let h₃ = ran tt k₂ _ h₂ in
      let e₂ : r.1 ≡ recalculate_order_payable_totals k₂.store_orders k₂ =
        modified (λ (k : OrderGraph). recalculate_order_payable_totals k.store_orders k) k₂ h₃ in
      let v₁ : IsConsistent k₁.order k₁.store_orders =
        subst (λ (o : Order). IsConsistent o k₁.store_orders) (sym kept.order)
          (subst (IsConsistent k₀.order) (sym kept.store_orders)
            (cancel_rows-IsConsistent g allowed v)) in
      subst (λ (k : OrderGraph). IsConsistent k.order k.store_orders) (sym e₂)
        (payable-IsConsistent k₁.order k₁.store_orders k₁.store_orders v₁)

unblocked-Closable :
    (rows : List StoreOrder)
    → any (λ (so : StoreOrder). customer_cancel_blocking so.status) rows ≡ false
    → All (Closable customer_cancelable_store) rows
unfolding non_chargeable customer_cancel_blocking customer_cancelable_store
unblocked-Closable [] h = tt
unblocked-Closable (r ∷ rows) h = (ground (arith, h), unblocked-Closable rows (ground (arith, h)))

undone-Closable :
    (rows : List StoreOrder)
    → some_row is_completed rows ≡ false
    → All (Closable store_order_active) rows
unfolding non_chargeable store_order_active
undone-Closable [] h = tt
undone-Closable (r ∷ rows) h = (ground (arith, h), undone-Closable rows (ground (arith, h)))

customer-Cancellable :
    (o : Order) (rows : List StoreOrder)
    → validate_customer_order_cancellation o rows ≡ ok tt
    → IsConsistent o rows
    → Cancellable customer_cancelable_store o rows
unfolding validate_customer_order_cancellation customer_cancellable running
customer-Cancellable o rows h v e =
    (unblocked-Closable rows (ground (arith, h, e)), ground (arith, h, e, v.collected))

admin-Cancellable :
    (o : Order) (rows : List StoreOrder)
    → validate_admin_order_cancellation o ≡ ok tt
    → IsConsistent o rows
    → Cancellable store_order_active o rows
unfolding validate_admin_order_cancellation admin_cancellable running
admin-Cancellable o rows h v e =
    (undone-Closable rows (ground (arith, h, e, v.fulfilled)), ground (arith, h, e, v.collected))

-- A customer's cancellation keeps the order consistent.
pub cancel_customer_order-IsConsistent :
    (c : Call) (customer : ℕ) (given : Text) (g : OrderGraph) {r : Unit {0} × OrderGraph}
    → cancel_customer_order c customer given g ≡ ok r
    → IsConsistent g.order g.store_orders
    → IsConsistent r.1.order r.1.store_orders
unfolding cancel_customer_order
cancel_customer_order-IsConsistent c customer given g h v =
    let h₁ = ran g g _ h in
    let (own, h₂) = raise_if-eq-ok (not (g.order.customer == customer)) permission_denied _ g h₁ in
    let (first, fine, h₃) = lift-eq-ok (require_reason given) _ g h₂ in
    let (valid, h₄) =
      check-eq-ok (validate_customer_order_cancellation g.order g.store_orders) _ g h₃ in
    cancel_graph-IsConsistent customer_cancelable_store c first
      (text "Customer cancellation of " ++ (g.order.order_number ++ (text ": " ++ first))) g h₄
      (customer-Cancellable g.order g.store_orders valid v) v

-- An administrative cancellation keeps the order consistent.
pub cancel_order_by_admin-IsConsistent :
    (c : Call) (given : Text) (g : OrderGraph) {r : Unit {0} × OrderGraph}
    → cancel_order_by_admin c given g ≡ ok r
    → IsConsistent g.order g.store_orders
    → IsConsistent r.1.order r.1.store_orders
unfolding cancel_order_by_admin
cancel_order_by_admin-IsConsistent c given g h v =
    let (acted, h₁) = raise_if-eq-ok (no_actor c.actor) (validation actor) _ g h in
    let h₂ = ran g g _ h₁ in
    let (first, fine, h₃) = lift-eq-ok (require_reason given) _ g h₂ in
    let (valid, h₄) = check-eq-ok (validate_admin_order_cancellation g.order) _ g h₃ in
    cancel_graph-IsConsistent store_order_active c first
      (text "Admin cancellation of " ++ (g.order.order_number ++ (text ": " ++ first))) g h₄
      (admin-Cancellable g.order g.store_orders valid v) v
