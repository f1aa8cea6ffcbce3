-- ===== src/Orders/Cancellation/Returns.antt =====
-- The stock of a cancelled order, orders/cancellation.py.
use zuvi_web.Prelude.{
  ℕ, ◌+◌, ◌≡◌, refl, sym, ap, ◌∙◌, subst, Bool, true, false, not, ◌&&◌, some, List, [], ◌∷◌, ◌++◌,
  any, select, All, ◌==◌, if◌then◌else◌, arith, Bool-cases, inl, inr, sum_of,
}
use zuvi_web.Prelude.Text.{Text, text}
use zuvi_web.Prelude.Effect.{
  ok, ran, lift-eq-ok, check-eq-ok, raise_if-eq-ok, and_then-eq-ok, modified, permission_denied,
  validation, actor,
}
use zuvi_web.Inventory.Model.{Inventory, stock_of}
use zuvi_web.Orders.Model.{StoreOrderStatus, StoreOrder, OrderItem, OrderGraph, Call}
use zuvi_web.Orders.Status.{
  customer_cancelable_store, store_order_active, is_cancelled_order,
  validate_customer_order_cancellation, validate_admin_order_cancellation,
}
use zuvi_web.Orders.Lines.{
  is_among, mark_cancelled, mark_order_items_cancelled, restore_order_items_stock, restore_items,
}
use zuvi_web.Orders.Cancellation.{
  require_reason, cancel_store_order_row, cancel_store_orders, mark_order_cancelled,
  recalculate_order_payable_totals, cancel_rows, cancel_graph, cancel_customer_order,
  cancel_order_by_admin, no_actor,
}
use zuvi_web.Orders.Cancellation.Effects.{select-listed}
use zuvi_web.Orders.Cancellation.Settled.{cancel_rows-order, cancel_store_orders-keeps}
use zuvi_web.Orders.Cancellation.Units.{Due, AllApart, IsFree, units_due}
use zuvi_web.Orders.Cancellation.Stock.{restore_items-stock}

cancel_one-inventory :
    (b : Bool) (c : Call) (given : Text) (so : StoreOrder) (g : OrderGraph)
    → (if b then cancel_store_order_row c given so g else g).inventory ≡ g.inventory
unfolding cancel_store_order_row
cancel_one-inventory b c given so g = ground arith

cancel_store_orders-inventory :
    (may : StoreOrderStatus → Bool) (c : Call) (given : Text) (rows : List StoreOrder)
    (g : OrderGraph)
    → (cancel_store_orders may c given rows g).inventory ≡ g.inventory
unfolding cancel_store_orders
cancel_store_orders-inventory may c given [] g = refl
cancel_store_orders-inventory may c given (so ∷ rows) g =
    cancel_store_orders-inventory may c given rows
      (if may so.status then cancel_store_order_row c given so g else g)
    ∙ cancel_one-inventory (may so.status) c given so g

mark_order_cancelled-inventory :
    (c : Call) (given : Text) (g : OrderGraph)
    → ((mark_order_cancelled c given g).inventory ≡ g.inventory)
      × ((mark_order_cancelled c given g).order_items ≡ g.order_items)
unfolding mark_order_cancelled
mark_order_cancelled-inventory c given g = ground arith

module _ (now : ℕ) (items : List OrderItem) where
  mark-units :
      (pk : ℕ) (rows : List OrderItem)
      → sum_of (units_due pk) (mark_cancelled now items rows) ≡ sum_of (units_due pk) rows
  mark-units pk [] = refl
  mark-units pk (r ∷ rows) = ground (arith, mark-units pk rows)

  mark-keys :
      (k : ℕ) (rows : List OrderItem)
      → any (λ (j : OrderItem). j.pk == k) (mark_cancelled now items rows)
        ≡ any (λ (j : OrderItem). j.pk == k) rows
  mark-keys k [] = refl
  mark-keys k (r ∷ rows) = ground (arith, mark-keys k rows)

  mark-apart : (rows : List OrderItem) → AllApart rows → AllApart (mark_cancelled now items rows)
  mark-apart [] all = tt
  mark-apart (r ∷ rows) all = (ground (arith, mark-keys r.pk rows, all.0), mark-apart rows all.1)

  marked-IsFree :
      (s : Inventory) (r : OrderItem) (b : Bool)
      → (r.stock_restored ≡ false → IsFree r s)
      → let q = if b then record r { is_cancelled = true; cancelled_at = some now } else r in
        q.stock_restored ≡ false → IsFree q s
  marked-IsFree s r true h = h
  marked-IsFree s r false h = h

  mark-IsFree :
      (s : Inventory) (rows : List OrderItem)
      → All (λ (i : OrderItem). i.stock_restored ≡ false → IsFree i s) rows
      → All
          (λ (i : OrderItem). i.stock_restored ≡ false → IsFree i s)
          (mark_cancelled now items rows)
  mark-IsFree s [] all = tt
  mark-IsFree s (r ∷ rows) all =
      (marked-IsFree s r (is_among items r && not r.is_cancelled) all.0, mark-IsFree s rows all.1)

-- The lines that the stock is returned for are those of the order before the cancellation.
record SameDue (g h : OrderGraph) : Type 0 where
  inventory : h.inventory ≡ g.inventory
  units : (pk : ℕ) → sum_of (units_due pk) h.order_items ≡ sum_of (units_due pk) g.order_items
  due : Due g.order_items g.inventory → Due h.order_items g.inventory

cancel_rows-SameDue :
    (may : StoreOrderStatus → Bool) (c : Call) (given : Text) (g : OrderGraph)
    → SameDue g (cancel_rows may c given g)
unfolding cancel_rows mark_order_items_cancelled
cancel_rows-SameDue may c given g =
    let k = cancel_store_orders may c given g.store_orders g in
    let (order, items) = cancel_store_orders-keeps may c given g.store_orders g in
    let (inventory', items') = mark_order_cancelled-inventory c given k in
    let h = mark_order_cancelled c given k in
    let same : h.order_items ≡ g.order_items = items' ∙ items in
    let marked = mark_cancelled c.now g.order_items h.order_items in
    elim (Bool-cases (is_cancelled_order g.order)) [
      | inl e ↦ rw e (record { inventory = refl; units = λ pk. refl; due = λ d. d })
      | inr e ↦ rw e (record {
        inventory = inventory' ∙ cancel_store_orders-inventory may c given g.store_orders g;
        units = λ pk.
            mark-units c.now g.order_items pk h.order_items
            ∙ ap (λ (l : List OrderItem). sum_of (units_due pk) l) same;
        due = λ d.
            let d' = subst (λ (l : List OrderItem). Due l g.inventory) (sym same) d in
            record {
              distinct = mark-apart c.now g.order_items h.order_items d'.distinct;
              free = mark-IsFree c.now g.order_items g.inventory h.order_items d'.free;
            };
      })
    ]

module _ (may : StoreOrderStatus → Bool) (c : Call) (given restored : Text) where
  cancel_graph-stock :
      (g : OrderGraph) {r : Unit {0} × OrderGraph}
      → cancel_graph may c given restored g ≡ ok r
      → Due g.order_items g.inventory
      → (pk n : ℕ) → stock_of pk g.inventory.products ≡ some n
      → stock_of pk r.1.inventory.products ≡ some (n + sum_of (units_due pk) g.order_items)
  unfolding cancel_graph recalculate_order_payable_totals mark_order_items_cancelled
      restore_order_items_stock
  cancel_graph-stock g {r} h d pk n known =
      let items = g.order_items in
      let k₀ = cancel_rows may c given g in
      let (gone, owner, listed) = cancel_rows-order may c given g in
      let same = cancel_rows-SameDue may c given g in
      let h₁ = ran tt k₀ _ (ran g g _ h) in
      let (u, k₁, e₁, h₂) = and_then-eq-ok (restore_order_items_stock c restored items k₀) _ h₁ in
      let k₂ : OrderGraph = mark_order_items_cancelled c.now items k₁ in
      let h₃ = ran tt k₂ _ h₂ in
      let e₂ : r.1 ≡ recalculate_order_payable_totals k₂.store_orders k₂ =
        modified (λ (k : OrderGraph). recalculate_order_payable_totals k.store_orders k) k₂ h₃ in
      let rows = select (is_among items) k₀.order_items in
      let every : rows ≡ k₀.order_items = select-listed items k₀.order_items listed in
      let run : restore_items c restored k₀.order_items k₀ ≡ ok (u, k₁) =
        ap (λ (l : List OrderItem). restore_items c restored l k₀) (sym every) ∙ ran k₀ k₀ _ e₁ in
      let back =
        restore_items-stock c restored k₀.order_items k₀ run
          (subst (Due k₀.order_items) (sym same.inventory) (same.due d)) pk n
          (ap (λ (s : Inventory). stock_of pk s.products) same.inventory ∙ known) in
      ap (λ (k : OrderGraph). stock_of pk k.inventory.products) e₂
      ∙ back
      ∙ ap (λ (q : ℕ). some (n + q)) (same.units pk)

-- A customer's cancellation that returns has added to the stock of each product the quantities of
-- the lines of that product whose stock was not back before, where the lines have different keys and
-- the ledger holds no return for those that were due.
pub cancel_customer_order_returns_stock :
    (c : Call) (customer : ℕ) (given : Text) (g : OrderGraph) {r : Unit {0} × OrderGraph}
    → cancel_customer_order c customer given g ≡ ok r
    → Due g.order_items g.inventory
    → (pk n : ℕ) → stock_of pk g.inventory.products ≡ some n
    → stock_of pk r.1.inventory.products ≡ some (n + sum_of (units_due pk) g.order_items)
unfolding cancel_customer_order
cancel_customer_order_returns_stock c customer given g h =
    let h₁ = ran g g _ h in
    let (own, h₂) = raise_if-eq-ok (not (g.order.customer == customer)) permission_denied _ g h₁ in
    let (first, fine, h₃) = lift-eq-ok (require_reason given) _ g h₂ in
    let (valid, h₄) =
      check-eq-ok (validate_customer_order_cancellation g.order g.store_orders) _ g h₃ in
    cancel_graph-stock customer_cancelable_store c first
      (text "Customer cancellation of " ++ (g.order.order_number ++ (text ": " ++ first))) g h₄

-- An administrative cancellation that returns has added to the stock of each product the quantities
-- of the lines of that product whose stock was not back before, under the same two conditions.
pub cancel_order_by_admin_returns_stock :
    (c : Call) (given : Text) (g : OrderGraph) {r : Unit {0} × OrderGraph}
    → cancel_order_by_admin c given g ≡ ok r
    → Due g.order_items g.inventory
    → (pk n : ℕ) → stock_of pk g.inventory.products ≡ some n
    → stock_of pk r.1.inventory.products ≡ some (n + sum_of (units_due pk) g.order_items)
unfolding cancel_order_by_admin
cancel_order_by_admin_returns_stock c given g h =
    let (acted, h₁) = raise_if-eq-ok (no_actor c.actor) (validation actor) _ g h in
    let h₂ = ran g g _ h₁ in
    let (first, fine, h₃) = lift-eq-ok (require_reason given) _ g h₂ in
    let (valid, h₄) = check-eq-ok (validate_admin_order_cancellation g.order) _ g h₃ in
    cancel_graph-stock store_order_active c first
      (text "Admin cancellation of " ++ (g.order.order_number ++ (text ": " ++ first))) g h₄
