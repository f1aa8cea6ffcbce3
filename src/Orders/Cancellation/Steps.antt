-- ===== src/Orders/Cancellation/Steps.antt =====
-- One restoration and the loop over the lines, orders/cancellation.py.
use zuvi_web.Prelude.{
  ℕ, ◌≡◌, refl, sym, ap, ◌∙◌, subst, Bool, true, false, not, ◌&&◌, ◌||◌, Option, some, List, [],
  ◌∷◌, any, All, ◌==◌, arith, find,
}
use zuvi_web.Prelude.Text.{Text}
use zuvi_web.Prelude.Effect.{
  Result, ok, err, ran, or_raise-eq-ok, and_then-eq-ok, key_error, does_not_exist, modified,
}
use zuvi_web.Inventory.Model.{Inventory, InventoryTransaction, product_row}
use zuvi_web.Inventory.OrderStock.{restore_order_stock}
use zuvi_web.Orders.Model.{
  StoreOrder, OrderItem, OrderGraph, Call, put_order_item, replace_order_item,
}
use zuvi_web.Orders.Lines.{
  put_inventory, in_inventory, restoration, restore_item, restore_unless, restore_items,
}

-- The rows that the return of stock does not touch.
pub record Keeps (g h : OrderGraph) : Type 0 where
  pub order : h.order ≡ g.order
  pub store_orders : h.store_orders ≡ g.store_orders

pub Keeps-refl : (g : OrderGraph) → Keeps g g
Keeps-refl g = record { order = refl; store_orders = refl }

pub Keeps-trans : {g h k : OrderGraph} → Keeps g h → Keeps h k → Keeps g k
Keeps-trans a b = record {
  order = b.order ∙ a.order;
  store_orders = b.store_orders ∙ a.store_orders;
}

pub put_inventory-eq-ok :
    {A : Type 0} (g : OrderGraph) (m : Result (A × Inventory)) {r : A × OrderGraph}
    → put_inventory g m ≡ ok r
    → (s : Inventory) × (m ≡ ok (r.0, s)) × (r.1 ≡ record g { inventory = s })
unfolding put_inventory
put_inventory-eq-ok {A} g (ok (a, s)) {r} h =
    let same : r ≡ (a, record g { inventory = s }) = cc in
    (
      s,
      ap (λ (b : A). ok (b, s)) (sym (ap (λ (q : A × OrderGraph). q.0) same)),
      ap (λ (q : A × OrderGraph). q.1) same,
    )
put_inventory-eq-ok g (err e) h = cc

-- The parts of a restoration that returned.
pub record Restored (c : Call) (given : Text) (i : OrderItem) (g h : OrderGraph) : Type 0 where
  pub store : ℕ
  pub row : InventoryTransaction
  pub inventory : Inventory
  pub moved :
      restore_order_stock c.today (λ s. s) (restoration c given store i) g.inventory
      ≡ ok (row, inventory)
  pub result :
      h
      ≡ put_order_item
          (record i { stock_restored = true; stock_restored_at = some c.now })
          (record g { inventory = inventory })

pub restore_item-Restored :
    (c : Call) (given : Text) (i : OrderItem) (g : OrderGraph) {r : Unit {0} × OrderGraph}
    → restore_item c given i g ≡ ok r
    → Restored c given i g r.1
unfolding restore_item
restore_item-Restored c given i g {r} h =
    let h₁ = ran g g _ h in
    let (p, found, h₂) =
      or_raise-eq-ok key_error (product_row i.product g.inventory.products) _ g h₁ in
    let (so, owner, h₃) =
      or_raise-eq-ok does_not_exist
        (find (λ (so : StoreOrder). so.pk == i.store_order) g.store_orders) _ g h₂ in
    let (row, k, e, h₄) =
      and_then-eq-ok
        (in_inventory (restore_order_stock c.today (λ s. s) (restoration c given so.store i)) g) _
        h₃ in
    let (s, moved, same) = put_inventory-eq-ok g _ e in
    let write : OrderGraph → OrderGraph =
      put_order_item (record i { stock_restored = true; stock_restored_at = some c.now }) in
    record {
      store = so.store;
      row = row;
      inventory = s;
      moved = moved;
      result = modified write k h₄ ∙ ap write same;
    }

pub restore_unless-Keeps :
    (c : Call) (given : Text) (i : OrderItem) (b : Bool) (g : OrderGraph)
    {r : Unit {0} × OrderGraph}
    → restore_unless c given i b g ≡ ok r
    → Keeps g r.1
unfolding restore_unless
restore_unless-Keeps c given i true g {r} h =
    let same : r ≡ (tt, g) = cc in
    subst (λ (q : Unit {0} × OrderGraph). Keeps g q.1) (sym same) (Keeps-refl g)
restore_unless-Keeps c given i false g {r} h =
    let e = (restore_item-Restored c given i g h).result in
    record {
      order = ap (λ (k : OrderGraph). k.order) e;
      store_orders = ap (λ (k : OrderGraph). k.store_orders) e;
    }

-- A line among `items` comes out with its stock back, or was not due.
abbrev pub due : List OrderItem → OrderItem → Bool
due items r = any (λ (i : OrderItem). i.pk == r.pk && not i.stock_restored) items

abbrev pub IsRestored : OrderItem → Type 0
IsRestored r = r.stock_restored ≡ true

abbrev pub Remaining : List OrderItem → OrderItem → Type 0
Remaining items r = (r.stock_restored || due items r) ≡ true

pub replace-Remaining :
    (i : OrderItem) (items rows : List OrderItem) (n : Option ℕ)
    → All (Remaining (i ∷ items)) rows
    → All
        (Remaining items)
        (replace_order_item (record i { stock_restored = true; stock_restored_at = n }) rows)
replace-Remaining i items [] n all = tt
replace-Remaining i items (r ∷ rows) n all =
    (ground (arith, all.0), replace-Remaining i items rows n all.1)

pub skip-Remaining :
    (i : OrderItem) (items rows : List OrderItem)
    → i.stock_restored ≡ true
    → All (Remaining (i ∷ items)) rows
    → All (Remaining items) rows
skip-Remaining i items [] h all = tt
skip-Remaining i items (r ∷ rows) h all =
    (ground (arith, all.0, h), skip-Remaining i items rows h all.1)

pub unless-Remaining :
    (c : Call) (given : Text) (i : OrderItem) (items : List OrderItem) (b : Bool) (g : OrderGraph)
    {r : Unit {0} × OrderGraph}
    → i.stock_restored ≡ b
    → restore_unless c given i b g ≡ ok r
    → All (Remaining (i ∷ items)) g.order_items
    → All (Remaining items) r.1.order_items
unfolding restore_unless
unless-Remaining c given i items true g {r} e h all =
    let same : r ≡ (tt, g) = cc in
    subst (λ (q : Unit {0} × OrderGraph). All (Remaining items) q.1.order_items) (sym same)
      (skip-Remaining i items g.order_items e all)
unless-Remaining c given i items false g {r} e h all =
    subst (λ (k : OrderGraph). All (Remaining items) k.order_items)
      (sym (restore_item-Restored c given i g h).result)
      (replace-Remaining i items g.order_items (some c.now) all)

pub none-Remaining : (rows : List OrderItem) → All (Remaining []) rows → All IsRestored rows
none-Remaining [] all = tt
none-Remaining (r ∷ rows) all = (ground (arith, all.0), none-Remaining rows all.1)

-- The loop: nothing but lines and stock changes, and every line of its list has its stock back.
pub restore_items-Keeps :
    (c : Call) (given : Text) (items : List OrderItem) (g : OrderGraph) {r : Unit {0} × OrderGraph}
    → restore_items c given items g ≡ ok r
    → Keeps g r.1 × (All (Remaining items) g.order_items → All IsRestored r.1.order_items)
unfolding restore_items
restore_items-Keeps c given [] g {r} h =
    let same : r ≡ (tt, g) = cc in
    subst
      (λ (q : Unit {0} × OrderGraph).
        Keeps g q.1 × (All (Remaining []) g.order_items → All IsRestored q.1.order_items))
      (sym same) (Keeps-refl g, none-Remaining g.order_items)
restore_items-Keeps c given (i ∷ items) g {r} h =
    let (u, k, first, rest) = and_then-eq-ok (restore_unless c given i i.stock_restored g) _ h in
    let (kept, restored) = restore_items-Keeps c given items k rest in
    (
      Keeps-trans (restore_unless-Keeps c given i i.stock_restored g first) kept,
      λ all. restored (unless-Remaining c given i items i.stock_restored g refl first all),
    )
