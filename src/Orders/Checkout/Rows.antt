-- ===== src/Orders/Checkout/Rows.antt =====
-- The rows that the loops of orders/checkout.py write.
use zuvi_web.Prelude.{ℕ, ◌+◌, ◌≡◌, sym, ap, ◌∙◌, subst, false, Option, some, List, [], ◌∷◌, ◌++◌}
use zuvi_web.Prelude.Sort.{Group, members}
use zuvi_web.Prelude.Effect.{
  Result, ok, err, ran, integrity, check-eq-ok, lift-eq-ok, or_raise-eq-ok, and_then-eq-ok,
}
use zuvi_web.Inventory.Model.{Inventory, InventoryTransaction}
use zuvi_web.Inventory.OrderStock.{deduct_order_stock}
use zuvi_web.Orders.Numbers.{order_number_max_attempts, generate_store_order_number}
use zuvi_web.Orders.Numbers.Fresh.{Saved, save_numbered-Saved}
use zuvi_web.Shop.{Shop, PickupLocation, PlacedOrder, PlacedStoreOrder, put_stock}
use zuvi_web.Orders.Validation.{World, Line}
use zuvi_web.Orders.Checkout.{Fulfillment}
use zuvi_web.Orders.Checkout.StoreRows.{
  item_row, item_full_clean, insert_item, line_deduction, place_line, place_lines, save_store_order,
  store_order_full_clean, store_order_conflicts, insert_store_order,
}
use zuvi_web.Orders.Checkout.Placement.{
  first_store_status, pickup_for, place_store_order, place_store_orders,
}

-- A call of the inventory that returned.
pub on_stock-eq-ok :
    {A : Type 0} (s : Shop) (m : Result (A × Inventory)) {r : A × Shop}
    → put_stock s m ≡ ok r
    → (x : Inventory) × (m ≡ ok (r.0, x)) × (r.1 ≡ record s { inventory = x })
unfolding put_stock
on_stock-eq-ok {A} s (ok (a, x)) {r} h =
    let same : r ≡ (a, record s { inventory = x }) = cc in
    (x, ap (λ (q : A × Shop). ok (q.0, x)) (sym same), ap (λ (q : A × Shop). q.1) same)
on_stock-eq-ok s (err e) h = cc

-- The tables after line `l` of store order `so` was written.
abbrev pub with_item : PlacedStoreOrder → Line → Inventory → Shop → Shop
with_item so l x s = record s {
  order_items = s.order_items ++ item_row so l s.next_order_item ∷ [];
  next_order_item = s.next_order_item + 1;
  inventory = x;
}

module _ (w : World) (o : PlacedOrder) (so : PlacedStoreOrder) where
  pub record LinePlaced (l : Line) (s t : Shop) : Type 0 where
    pub clean : item_full_clean so l ≡ ok tt
    pub row : InventoryTransaction
    pub stock : Inventory
    pub deducted :
        deduct_order_stock w.call.today
          (λ x. x)
          (line_deduction w o l (item_row so l s.next_order_item).item.pk)
          s.inventory
        ≡ ok (row, stock)
    pub result : t ≡ with_item so l stock s

  pub place_line-LinePlaced :
      (l : Line) (s : Shop) {r : Unit {0} × Shop}
      → place_line w o so l s ≡ ok r
      → LinePlaced l s r.1
  unfolding place_line insert_item
  place_line-LinePlaced l s {r} h =
      let (clean, h₁) = check-eq-ok (item_full_clean so l) _ s h in
      let i = item_row so l s.next_order_item in
      let u : Shop = record s {
        order_items = s.order_items ++ i ∷ [];
        next_order_item = s.next_order_item + 1;
      } in
      let h₂ = ran i u _ h₁ in
      let (row, t, moved, h₃) =
        and_then-eq-ok
          (put_stock u
            (deduct_order_stock w.call.today (λ x. x) (line_deduction w o l i.item.pk) u.inventory))
          _ h₂ in
      let (x, deducted, result) = on_stock-eq-ok u _ moved in
      let same : r ≡ (tt, t) = cc in
      record {
        clean = clean;
        row = row;
        stock = x;
        deducted = deducted;
        result = ap (λ (q : Unit {0} × Shop). q.1) same ∙ result;
      }

  -- A property that each line keeps.
  pub place_lines-keeps :
      (P : Shop → Type 0)
      → ((l : Line) (s t : Shop) → LinePlaced l s t → P s → P t)
      → (ls : List Line) (s : Shop) {r : Unit {0} × Shop} → place_lines w o so ls s ≡ ok r
      → P s
      → P r.1
  unfolding place_lines
  place_lines-keeps P keep [] s {r} h p =
      let same : r ≡ (tt, s) = cc in subst (λ (q : Unit {0} × Shop). P q.1) (sym same) p
  place_lines-keeps P keep (l ∷ ls) s h p =
      let (_, u, first, rest) = and_then-eq-ok (place_line w o so l s) _ h in
      place_lines-keeps P keep ls u rest (keep l s u (place_line-LinePlaced l s first) p)

-- One store order that was written: `s` is the shop before, `u` the one that the row was added to.
pub record StoreOrderPlaced (w : World) (o : PlacedOrder) (f : Fulfillment) (g : Group Line)
    (P : Shop → Type 0) (s t : Shop) : Type 0 where
  pub pickup : Option PickupLocation
  pub chosen : pickup_for f g.key ≡ ok pickup
  pub clean : store_order_full_clean o pickup g s.store_orders ≡ ok tt
  pub number : List ℕ
  pub before : Shop
  pub kept : P before
  pub row : PlacedStoreOrder
  pub after : Shop
  pub free : store_order_conflicts o g number before ≡ false
  pub inserted : insert_store_order o pickup g number before ≡ (row, after)
  pub filled : place_lines w o row (members g) (first_store_status w row after) ≡ ok (tt, t)

module _ (w : World) (o : PlacedOrder) (f : Fulfillment) where
  saved-some :
      (g : Group Line) (P : Shop → Type 0) (pickup : Option PickupLocation) (s : Shop)
      (q : Option PlacedStoreOrder) (u : Shop) (so : PlacedStoreOrder)
      → ((k : ℕ) (s : Shop) → P s → P (w.before_store_order k s))
      → save_store_order w o pickup g s ≡ ok (q, u)
      → q ≡ some so
      → P s
      → (number : List ℕ) × (v : Shop) × P v
        × (store_order_conflicts o g number v ≡ false)
        × (insert_store_order o pickup g number v ≡ (so, u))
  unfolding save_store_order
  saved-some g P pickup s q u so keep saved e p =
      subst
        (λ (x : Option PlacedStoreOrder).
          Saved (λ k v. generate_store_order_number (w.store_draws g.key) k v.store_orders)
            w.before_store_order (store_order_conflicts o g) (insert_store_order o pickup g) P keep
            (x, u))
        e (save_numbered-Saved _ _ _ _ P keep order_number_max_attempts 0 s saved p)

  pub place_store_order-Placed :
      (g : Group Line) (P : Shop → Type 0)
      → ((k : ℕ) (s : Shop) → P s → P (w.before_store_order k s))
      → (s : Shop) {r : Unit {0} × Shop} → place_store_order w o f g s ≡ ok r
      → P s
      → StoreOrderPlaced w o f g P s r.1
  unfolding place_store_order
  place_store_order-Placed g P keep s h p =
      let (pickup, chosen, h₁) = lift-eq-ok (pickup_for f g.key) _ s h in
      let h₂ = ran s s _ h₁ in
      let (clean, h₃) = check-eq-ok (store_order_full_clean o pickup g s.store_orders) _ s h₂ in
      let (q, u, saved, h₄) = and_then-eq-ok (save_store_order w o pickup g s) _ h₃ in
      let (so, found, h₅) = or_raise-eq-ok integrity q _ u h₄ in
      let (number, v, kept, free, inserted) = saved-some g P pickup s q u so keep saved found p in
      let h₆ = ran tt (first_store_status w so u) _ h₅ in
      record {
        pickup = pickup;
        chosen = chosen;
        clean = clean;
        number = number;
        before = v;
        kept = kept;
        row = so;
        after = u;
        free = free;
        inserted = inserted;
        filled = h₆;
      }

  -- A property that each store order keeps.
  pub place_store_orders-keeps :
      (P : Shop → Type 0)
      → ((k : ℕ) (s : Shop) → P s → P (w.before_store_order k s))
      → ((g : Group Line) (s t : Shop) → StoreOrderPlaced w o f g P s t → P t)
      → (gs : List (Group Line)) (s : Shop) {r : Unit {0} × Shop}
      → place_store_orders w o f gs s ≡ ok r
      → P s
      → P r.1
  unfolding place_store_orders
  place_store_orders-keeps P others keep [] s {r} h p =
      let same : r ≡ (tt, s) = cc in subst (λ (q : Unit {0} × Shop). P q.1) (sym same) p
  place_store_orders-keeps P others keep (g ∷ gs) s h p =
      let (_, u, first, rest) = and_then-eq-ok (place_store_order w o f g s) _ h in
      place_store_orders-keeps P others keep gs u rest
        (keep g s u (place_store_order-Placed g P others s first p))
