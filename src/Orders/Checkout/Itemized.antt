-- ===== src/Orders/Checkout/Itemized.antt =====
-- What an order that checkout places consists of, orders/checkout.py: its store orders, their lines and
-- the amounts. No other session is between the locks and the end of the call.
use mathlib.Core.Path.{fun_ext}
use mathlib.Core.List.{append_assoc}
use zuvi_web.Prelude.{
  ℕ, ◌+◌, ◌≤◌, ◌<◌, ◌≡◌, refl, sym, ap, ◌∙◌, subst, List, [], ◌∷◌, ◌++◌, arith, sum_of,
  sum_of-append, All, All-append, map,
}
use zuvi_web.Prelude.Sort.{Group, members, group_sum}
use zuvi_web.Prelude.Effect.{ok, and_then-eq-ok}
use zuvi_web.Orders.Lifecycle.{ApartRows}
use zuvi_web.Shop.{Shop, PlacedOrder, PlacedStoreOrder, PlacedItem}
use zuvi_web.Orders.Validation.{World, Line}
use zuvi_web.Orders.Checkout.{Fulfillment}
use zuvi_web.Orders.Checkout.OrderRow.{lines_subtotal}
use zuvi_web.Orders.Checkout.StoreRows.{store_order_row, insert_store_order}
use zuvi_web.Orders.Checkout.Placement.{first_store_status, place_store_order, place_store_orders}
use zuvi_web.Orders.Checkout.Rows.{StoreOrderPlaced, place_store_order-Placed}
use zuvi_web.Orders.Checkout.Balance.{
  store_subtotal, line_total_of, Balanced-append, units_of, item_due, IsWhole, InKeys, InKeys-wider,
  ApartItems-append,
}
use zuvi_web.Orders.Checkout.Amounts.{
  LinesWritten, place_lines-Written, store_row_of, ApartRows-append, IsNew, Itemized, All-later,
  map-append, All-apart,
}

module _ (w : World) (o : PlacedOrder) (f : Fulfillment) (g : Group Line) where
  -- One store order more.
  store-Itemized :
      (s u t : Shop) (n : ℕ) (d : ℕ → ℕ)
      → Itemized o s u n d
      → StoreOrderPlaced w o f g (λ q. q ≡ u) u t
      → Itemized o s t
          (n + sum_of line_total_of (members g))
          (λ pk. d pk + sum_of (units_of pk) (members g))
  unfolding insert_store_order store_order_row first_store_status lines_subtotal
  store-Itemized s u t n d i v =
      let so = v.row in
      let made : insert_store_order o v.pickup g v.number u ≡ (so, v.after) =
        ap (λ (q : Shop). insert_store_order o v.pickup g v.number q) (sym v.kept) ∙ v.inserted in
      let row = store_order_row o v.pickup g u.next_store_order v.number in
      let so-row : so ≡ row = ap (λ (q : PlacedStoreOrder × Shop). q.0) (sym made) in
      let lines : LinesWritten w o row (members g) (first_store_status w row v.after) t =
        subst
          (λ (q : PlacedStoreOrder).
            LinesWritten w o q (members g) (first_store_status w q v.after) t)
          so-row
          (place_lines-Written w o so (members g) (first_store_status w so v.after) v.filled) in
      let next : t.next_store_order ≡ u.next_store_order + 1 =
        lines.next_store_order
        ∙ ap (λ (q : PlacedStoreOrder × Shop). q.1.next_store_order) (sym made) in
      let first : v.after.next_order_item ≡ u.next_order_item =
        ap (λ (q : PlacedStoreOrder × Shop). q.1.next_order_item) (sym made) in
      let grows : u.next_order_item ≤ t.next_order_item = omega (arith, first, lines.grows) in
      let keyed : All (InKeys u.next_order_item t.next_order_item) lines.block =
        subst (λ (k : ℕ). All (InKeys k t.next_order_item) lines.block) first lines.keyed in
      record {
        news = i.news ++ row ∷ [];
        items = i.items ++ lines.block;
        store_orders =
            lines.store_orders
            ∙ ap (λ (q : PlacedStoreOrder × Shop). q.1.store_orders) (sym made)
            ∙ ap (λ (q : List PlacedStoreOrder). q ++ row ∷ []) i.store_orders
            ∙ append_assoc s.store_orders i.news (row ∷ []);
        order_items =
            lines.rows
            ∙ ap (λ (q : PlacedStoreOrder × Shop). q.1.order_items ++ lines.block) (sym made)
            ∙ ap (λ (q : List PlacedItem). q ++ lines.block) i.order_items
            ∙ append_assoc s.order_items i.items lines.block;
        balanced = Balanced-append row lines.block lines.mine lines.total i.news i.items i.balanced;
        total = sum_of-append store_subtotal i.news (row ∷ []) ∙ omega (arith, i.total);
        new =
            All-append (IsNew o) i.news (row ∷ []) i.new
              (record { mine = refl; pending = refl; whole = refl; uncharged = refl }, tt);
        below =
            All-append (λ (q : PlacedStoreOrder). q.row.pk < t.next_store_order) i.news (row ∷ [])
              (All-later u.next_store_order t.next_store_order i.news next i.below)
              (omega (arith, next), tt);
        above =
            All-append (λ (q : PlacedStoreOrder). s.next_store_order ≤ q.row.pk) i.news (row ∷ [])
              i.above (i.starts, tt);
        starts = omega (arith, next, i.starts);
        whole = All-append IsWhole i.items lines.block i.whole lines.whole;
        keyed =
            All-append (InKeys s.next_order_item t.next_order_item) i.items lines.block
              (InKeys-wider s.next_order_item u.next_order_item s.next_order_item t.next_order_item
                i.items (omega arith) grows i.keyed)
              (InKeys-wider u.next_order_item t.next_order_item s.next_order_item t.next_order_item
                lines.block i.grows (omega arith) keyed);
        apart_items =
            ApartItems-append s.next_order_item u.next_order_item t.next_order_item i.items
              lines.block i.apart_items lines.apart i.keyed keyed;
        grows = omega (arith, grows, i.grows);
        due = λ pk.
            sum_of-append (item_due pk) i.items lines.block ∙ omega (arith, i.due pk, lines.due pk);
        apart = subst ApartRows (sym (map-append i.news row)) (
            ApartRows-append row.row (map store_row_of i.news) i.apart
              (All-apart row.row i.news i.below));
        orders =
            lines.orders ∙ ap (λ (q : PlacedStoreOrder × Shop). q.1.orders) (sym made) ∙ i.orders;
        next_order =
            lines.next_order
            ∙ ap (λ (q : PlacedStoreOrder × Shop). q.1.next_order) (sym made)
            ∙ i.next_order;
        cart_items =
            lines.cart_items
            ∙ ap (λ (q : PlacedStoreOrder × Shop). q.1.cart_items) (sym made)
            ∙ i.cart_items;
      }

-- The loop over the stores, with no other session between.
pub place_store_orders-Itemized :
    (w : World) (o : PlacedOrder) (f : Fulfillment)
    → ((k : ℕ) (s : Shop) → w.before_store_order k s ≡ s)
    → (gs : List (Group Line)) (s u : Shop) (n : ℕ) (d : ℕ → ℕ) {r : Unit {0} × Shop}
    → Itemized o s u n d
    → place_store_orders w o f gs u ≡ ok r
    → Itemized o s r.1
        (n + sum_of (group_sum line_total_of) gs)
        (λ pk. d pk + sum_of (group_sum (units_of pk)) gs)
unfolding place_store_orders
place_store_orders-Itemized w o f alone [] s u n d {r} i h =
    let same : r ≡ (tt, u) = cc in
    let more : d ≡ (λ pk. d pk + 0) = fun_ext (λ pk. omega arith) in
    subst (Itemized o s r.1 (n + 0)) more (
      subst (λ (m : ℕ). Itemized o s r.1 m d) (omega arith)
        (subst (λ (q : Unit {0} × Shop). Itemized o s q.1 n d) (sym same) i))
place_store_orders-Itemized w o f alone (g ∷ gs) s u n d {r} i h =
    let (_, v, first, rest) = and_then-eq-ok (place_store_order w o f g u) _ h in
    let placed =
      place_store_order-Placed w o f g (λ q. q ≡ u) (λ k q e. alone k q ∙ e) u first refl in
    let end =
      place_store_orders-Itemized w o f alone gs s v (n + group_sum line_total_of g)
        (λ pk. d pk + group_sum (units_of pk) g) (store-Itemized w o f g s u v n d i placed) rest in
    subst (Itemized o s r.1 (n + sum_of (group_sum line_total_of) (g ∷ gs)))
      (fun_ext (λ pk. omega arith))
      (subst
        (λ (m : ℕ).
          Itemized o s r.1 m
            (λ pk. d pk + group_sum (units_of pk) g + sum_of (group_sum (units_of pk)) gs))
        (omega arith) end)
