-- ===== src/Orders/Cancellation/Settled.antt =====
-- What a cancellation leaves behind, orders/cancellation.py.
use zuvi_web.Prelude.{
  ℕ, ◌≡◌, refl, sym, ap, ◌∙◌, subst, Bool, true, false, not, List, [], ◌∷◌, ◌++◌, All, ◌==◌,
  if◌then◌else◌, arith, Bool-cases, inl, inr,
}
use zuvi_web.Prelude.Text.{Text, text}
use zuvi_web.Prelude.Effect.{
  ok, running, ran, lift-eq-ok, check-eq-ok, raise_if-eq-ok, and_then-eq-ok, modified,
  permission_denied, validation, actor,
}
use zuvi_web.Orders.Model.{StoreOrderStatus, Order, StoreOrder, OrderItem, OrderGraph, Call}
use zuvi_web.Orders.Status.{
  customer_cancelable_store, store_order_active, is_cancelled_order,
  validate_customer_order_cancellation, validate_admin_order_cancellation,
}
use zuvi_web.Orders.Lines.{
  is_among, mark_cancelled, mark_order_items_cancelled, restore_order_items_stock,
}
use zuvi_web.Orders.Cancellation.{
  require_reason, cancel_store_order_row, cancel_store_orders, mark_order_cancelled, payable_totals,
  recalculate_order_payable_totals, cancel_rows, cancel_graph, cancel_customer_order,
  cancel_order_by_admin, no_actor,
}
use zuvi_web.Orders.Cancellation.Totals.{payable_totals_again}
use zuvi_web.Orders.Cancellation.Steps.{IsRestored}
use zuvi_web.Orders.Cancellation.Effects.{
  IsListed, restore_order_items_stock-Keeps, restore_order_items_stock_idle,
}

-- The end of a cancellation.
pub record Settled (g : OrderGraph) : Type 0 where
  pub cancelled : is_cancelled_order g.order ≡ true
  pub restored : All IsRestored g.order_items
  pub marked : All (λ (i : OrderItem). i.is_cancelled ≡ true) g.order_items
  pub payable : payable_totals g.store_orders g.order ≡ g.order

pub mark-marked :
    (now : ℕ) (items rows : List OrderItem)
    → All (IsListed items) rows
    → All (λ (i : OrderItem). i.is_cancelled ≡ true) (mark_cancelled now items rows)
mark-marked now items [] all = tt
mark-marked now items (r ∷ rows) all = (ground (arith, all.0), mark-marked now items rows all.1)

pub mark-Listed :
    (now : ℕ) (items listed rows : List OrderItem)
    → All (IsListed listed) rows
    → All (IsListed listed) (mark_cancelled now items rows)
mark-Listed now items listed [] all = tt
mark-Listed now items listed (r ∷ rows) all =
    (ground (arith, all.0), mark-Listed now items listed rows all.1)

pub mark-restored :
    (now : ℕ) (items rows : List OrderItem)
    → All IsRestored rows
    → All IsRestored (mark_cancelled now items rows)
mark-restored now items [] all = tt
mark-restored now items (r ∷ rows) all = (ground (arith, all.0), mark-restored now items rows all.1)

pub mark_idle :
    (now : ℕ) (items rows : List OrderItem)
    → All (λ (i : OrderItem). i.is_cancelled ≡ true) rows
    → mark_cancelled now items rows ≡ rows
mark_idle now items [] all = refl
mark_idle now items (r ∷ rows) all = ground (arith, all.0, mark_idle now items rows all.1)

pub self-Listed :
    (items rows : List OrderItem)
    → ((r : OrderItem) → is_among rows r ≡ true → is_among items r ≡ true)
    → All (IsListed items) rows
self-Listed items [] sub = tt
self-Listed items (r ∷ rows) sub =
    (sub r (ground arith), self-Listed items rows (λ q h. sub q (ground (arith, h))))

-- The loop over store orders leaves the order and its lines.
pub cancel_one-keeps :
    (b : Bool) (c : Call) (given : Text) (so : StoreOrder) (g : OrderGraph)
    → let h = if b then cancel_store_order_row c given so g else g in
      (h.order ≡ g.order) × (h.order_items ≡ g.order_items)
unfolding cancel_store_order_row
cancel_one-keeps b c given so g = ground arith

pub cancel_store_orders-keeps :
    (may : StoreOrderStatus → Bool) (c : Call) (given : Text) (rows : List StoreOrder)
    (g : OrderGraph)
    → let h = cancel_store_orders may c given rows g in
      (h.order ≡ g.order) × (h.order_items ≡ g.order_items)
unfolding cancel_store_orders
cancel_store_orders-keeps may c given [] g = (refl, refl)
cancel_store_orders-keeps may c given (so ∷ rows) g =
    let step = cancel_one-keeps (may so.status) c given so g in
    let rest =
      cancel_store_orders-keeps may c given rows
        (if may so.status then cancel_store_order_row c given so g else g) in
    (rest.0 ∙ step.0, rest.1 ∙ step.1)

pub mark_order_cancelled-keeps :
    (c : Call) (given : Text) (g : OrderGraph)
    → let h = mark_order_cancelled c given g in
      (h.order_items ≡ g.order_items)
      × (h.store_orders ≡ g.store_orders)
      × (is_cancelled_order h.order ≡ true)
      × (h.order.customer ≡ g.order.customer)
unfolding mark_order_cancelled
mark_order_cancelled-keeps c given g = ground arith

-- The order that the cancellation of the rows leaves.
pub cancel_rows-order :
    (may : StoreOrderStatus → Bool) (c : Call) (given : Text) (g : OrderGraph)
    → let h = cancel_rows may c given g in
      (is_cancelled_order h.order ≡ true)
      × (h.order.customer ≡ g.order.customer)
      × All (IsListed g.order_items) h.order_items
unfolding cancel_rows mark_order_items_cancelled
cancel_rows-order may c given g =
    let listed = self-Listed g.order_items g.order_items (λ r h. h) in
    let k = cancel_store_orders may c given g.store_orders g in
    let (order, items) = cancel_store_orders-keeps may c given g.store_orders g in
    let (items', rows, gone, customer) = mark_order_cancelled-keeps c given k in
    elim (Bool-cases (is_cancelled_order g.order)) [
      | inl e ↦ rw e (e, refl, listed)
      | inr e ↦ rw e (
        gone,
        customer ∙ ap (λ (o : Order). o.customer) order,
        mark-Listed c.now g.order_items g.order_items _
            (subst (All (IsListed g.order_items)) (sym (items' ∙ items)) listed),
      )
    ]

module _ (may : StoreOrderStatus → Bool) (c : Call) (given restored : Text) where
  pub cancel_graph-Settled :
      (g : OrderGraph) {r : Unit {0} × OrderGraph}
      → cancel_graph may c given restored g ≡ ok r
      → Settled r.1 × (r.1.order.customer ≡ g.order.customer)
  unfolding cancel_graph recalculate_order_payable_totals mark_order_items_cancelled payable_totals
  cancel_graph-Settled g {r} h =
      let items = g.order_items in
      let k₀ = cancel_rows may c given g in
      let (gone, owner, listed) = cancel_rows-order may c given g in
      let h₁ = ran tt k₀ _ (ran g g _ h) in
      let (u, k₁, e₁, h₂) = and_then-eq-ok (restore_order_items_stock c restored items k₀) _ h₁ in
      let (kept, back) = restore_order_items_stock-Keeps c restored items k₀ e₁ in
      let (all_back, all_listed) = back listed in
      let k₂ : OrderGraph = mark_order_items_cancelled c.now items k₁ in
      let h₃ = ran tt k₂ _ h₂ in
      let e₂ : r.1 ≡ recalculate_order_payable_totals k₂.store_orders k₂ =
        modified (λ (k : OrderGraph). recalculate_order_payable_totals k.store_orders k) k₂ h₃ in
      let same : k₁.order ≡ k₀.order = kept.order in
      let end : Settled (recalculate_order_payable_totals k₂.store_orders k₂) = record {
        cancelled = ap (λ (o : Order). is_cancelled_order o) same ∙ gone;
        restored = mark-restored c.now items k₁.order_items all_back;
        marked = mark-marked c.now items k₁.order_items all_listed;
        payable = payable_totals_again k₁.store_orders k₁.order;
      } in
      (
        subst Settled (sym e₂) end,
        ap (λ (k : OrderGraph). k.order.customer) e₂ ∙ ap (λ (o : Order). o.customer) same ∙ owner,
      )

  pub cancel_graph_idle :
      (g : OrderGraph) → Settled g → cancel_graph may c given restored g ≡ ok (tt, g)
  unfolding cancel_graph cancel_rows recalculate_order_payable_totals mark_order_items_cancelled
      running
  cancel_graph_idle g v =
      let listed = self-Listed g.order_items g.order_items (λ r h. h) in
      ground (
        arith,
        v.cancelled,
        v.payable,
        mark_idle c.now g.order_items g.order_items v.marked,
        restore_order_items_stock_idle c restored g.order_items g v.restored listed,
      )

pub cancel_customer_order-Settled :
    (c : Call) (customer : ℕ) (given : Text) (g : OrderGraph) {r : Unit {0} × OrderGraph}
    → cancel_customer_order c customer given g ≡ ok r
    → Settled r.1 × (not (r.1.order.customer == customer) ≡ false)
unfolding cancel_customer_order
cancel_customer_order-Settled c customer given g {r} h =
    let h₁ = ran g g _ h in
    let (own, h₂) = raise_if-eq-ok (not (g.order.customer == customer)) permission_denied _ g h₁ in
    let (first, fine, h₃) = lift-eq-ok (require_reason given) _ g h₂ in
    let (valid, h₄) =
      check-eq-ok (validate_customer_order_cancellation g.order g.store_orders) _ g h₃ in
    let (settled, same) =
      cancel_graph-Settled customer_cancelable_store c first
        (text "Customer cancellation of " ++ (g.order.order_number ++ (text ": " ++ first))) g h₄ in
    (settled, ap (λ (k : ℕ). not (k == customer)) same ∙ own)

pub cancel_order_by_admin-Settled :
    (c : Call) (given : Text) (g : OrderGraph) {r : Unit {0} × OrderGraph}
    → cancel_order_by_admin c given g ≡ ok r
    → Settled r.1
unfolding cancel_order_by_admin
cancel_order_by_admin-Settled c given g {r} h =
    let (acted, h₁) = raise_if-eq-ok (no_actor c.actor) (validation actor) _ g h in
    let h₂ = ran g g _ h₁ in
    let (first, fine, h₃) = lift-eq-ok (require_reason given) _ g h₂ in
    let (valid, h₄) = check-eq-ok (validate_admin_order_cancellation g.order) _ g h₃ in
    (cancel_graph-Settled store_order_active c first
      (text "Admin cancellation of " ++ (g.order.order_number ++ (text ": " ++ first))) g h₄).0
