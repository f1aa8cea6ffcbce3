-- ===== src/Orders/Checkout/Undone.antt =====
-- An order that is placed and then cancelled by its customer: orders/checkout.py and
-- orders/cancellation.py.
use zuvi_web.Prelude.{
  ℕ, ◌<◌, ◌≡◌, sym, ap, ◌∙◌, subst, none, some, List, select, map, sum_of, All, ◌==◌, arith,
}
use zuvi_web.Prelude.Sort.{group_sum}
use zuvi_web.Prelude.Text.{Text}
use zuvi_web.Prelude.Effect.{ok}
use zuvi_web.Inventory.Model.{Inventory, stock_of}
use zuvi_web.Orders.Model.{OrderGraph, Call}
use zuvi_web.Orders.Cancellation.{cancel_customer_order}
use zuvi_web.Orders.Cancellation.Units.{Due, units_due}
use zuvi_web.Orders.Cancellation.Returns.{cancel_customer_order_returns_stock}
use zuvi_web.Shop.{Shop, Cart, PlacedOrder, PlacedStoreOrder, PlacedItem}
use zuvi_web.Cart.{cart_of}
use zuvi_web.Orders.Validation.{Submission, World, Line}
use zuvi_web.Orders.Checkout.{Fulfillment}
use zuvi_web.Orders.Checkout.OrderRow.{order_with_token, insert_order, order_row}
use zuvi_web.Orders.Checkout.Placement.{
  first_status, empty_cart, lines_by_store, place_customer_order,
}
use zuvi_web.Orders.Checkout.Balance.{InKeys, units_of}
use zuvi_web.Orders.Checkout.Locks.{IsAlone}
use zuvi_web.Orders.Checkout.Completed.{Completed, complete_order-Completed}
use zuvi_web.Orders.Checkout.Receipt.{NewOrder, place-NewOrder}
use zuvi_web.Orders.Checkout.Units.{Unused}
use zuvi_web.Orders.Checkout.Stock.{UnusedIn, wanted-units, place_customer_order-Sells}
use zuvi_web.Orders.Checkout.Begins.{
  item_of, items_of, store_orders_of, order_graph, IsKeyed, select-append,
}
use zuvi_web.Orders.Checkout.Graph.{
  RestoresFree, Ready, stores-Ready, old-items, Balanced-Among, all-items, apart-map, IsFree-map,
  due-map,
}

-- Every line belongs to a store order that has a key already.
abbrev pub ItemsKeyed : Shop → Type 0
ItemsKeyed s = All (λ (i : PlacedItem). i.item.store_order < s.next_store_order) s.order_items

-- The graph of an order that was placed: its lines, whose stock is due.
record PlacedGraph (s : Shop) (wanted : ℕ → ℕ) (g : OrderGraph) : Type 0 where
  due : Due g.order_items g.inventory
  units : (pk : ℕ) → sum_of (units_due pk) g.order_items ≡ wanted pk

module _ (w : World) (a : Submission) (s : Shop) (c : Cart) (alone : IsAlone w) (keyed : IsKeyed s)
    (items_keyed : ItemsKeyed s) (unused : UnusedIn s)
    (free : RestoresFree s.next_order_item s.inventory) where
  -- The shop that the loop over the stores starts from.
  record Starts (n : Shop) (f : Fulfillment) (lines : List Line) (o : PlacedOrder) (v : Shop)
      : Type 0 where
    store_orders : v.store_orders ≡ s.store_orders
    order_items : v.order_items ≡ s.order_items
    inventory : v.inventory ≡ s.inventory
    next_order_item : v.next_order_item ≡ s.next_order_item
    next_store_order : v.next_store_order ≡ s.next_store_order
    keyed_by : o.pk ≡ s.next_order

  new-Starts :
      {r : PlacedOrder × Shop} (n : NewOrder w a s c r)
      → Starts n.shop n.written.place n.written.lines n.written.order n.written.saved_shop
  unfolding insert_order order_row
  new-Starts n =
      let l = n.locked in
      record {
        store_orders =
            ap (λ (q : PlacedOrder × Shop). q.1.store_orders) n.inserted ∙ l.store_orders;
        order_items = ap (λ (q : PlacedOrder × Shop). q.1.order_items) n.inserted ∙ l.order_items;
        inventory = ap (λ (q : PlacedOrder × Shop). q.1.inventory) n.inserted ∙ l.inventory;
        next_order_item =
            ap (λ (q : PlacedOrder × Shop). q.1.next_order_item) n.inserted ∙ l.next_order_item;
        next_store_order =
            ap (λ (q : PlacedOrder × Shop). q.1.next_store_order) n.inserted ∙ l.next_store_order;
        keyed_by = ap (λ (q : PlacedOrder × Shop). q.0.pk) n.inserted ∙ l.next_order;
      }

  Completed-Graph :
      (n : Shop) (f : Fulfillment) (lines : List Line) (o : PlacedOrder) (v : Shop)
      {r : PlacedOrder × Shop}
      → Starts n f lines o v
      → Completed w c f lines o v r
      → PlacedGraph s
          (λ pk. sum_of (group_sum (units_of pk)) (lines_by_store lines))
          (order_graph r.0 r.1)
  unfolding order_graph first_status empty_cart
  Completed-Graph n f lines o v {r} start done =
      let i = done.itemized in
      let wanted : ℕ → ℕ = λ pk. sum_of (group_sum (units_of pk)) (lines_by_store lines) in
      let below : All (λ (so : PlacedStoreOrder). so.order < o.pk) v.store_orders =
        subst (λ (k : ℕ). All (λ (so : PlacedStoreOrder). so.order < k) v.store_orders)
          (sym start.keyed_by)
          (subst (All (λ (so : PlacedStoreOrder). so.order < s.next_order)) (sym start.store_orders)
            keyed) in
      let olds : All (λ (j : PlacedItem). j.item.store_order < v.next_store_order) v.order_items =
        subst (λ (k : ℕ). All (λ (j : PlacedItem). j.item.store_order < k) v.order_items)
          (sym start.next_store_order)
          (subst (All (λ (j : PlacedItem). j.item.store_order < s.next_store_order))
            (sym start.order_items) items_keyed) in
      let news : store_orders_of o done.shop ≡ i.news =
        ap
          (λ (rows : List PlacedStoreOrder).
            select (λ (so : PlacedStoreOrder). so.order == o.pk) rows)
          i.store_orders
        ∙ select-append o v.store_orders i.news below i.new in
      let items : items_of (store_orders_of o done.shop) done.shop.order_items ≡ i.items =
        ap (λ (rows : List PlacedStoreOrder). items_of rows done.shop.order_items) news
        ∙ ap (items_of i.news) i.order_items
        ∙ old-items v.next_store_order i.news v.order_items i.items olds i.above
        ∙ all-items i.news i.items (Balanced-Among i.news i.items i.balanced) in
      let ready : Ready s.next_order_item (first_status w o v) =
        subst (λ (k : ℕ). Unused k v.inventory × RestoresFree s.next_order_item v.inventory)
          (sym start.next_order_item)
          (subst (λ (x : Inventory). Unused s.next_order_item x × RestoresFree s.next_order_item x)
            (sym start.inventory) (unused, free)) in
      let (_, last) =
        stores-Ready w o s.next_order_item f alone.store_order (lines_by_store lines)
          (first_status w o v) done.filled ready in
      let keys : All (InKeys s.next_order_item done.shop.next_order_item) i.items =
        subst (λ (k : ℕ). All (InKeys k done.shop.next_order_item) i.items) start.next_order_item
          i.keyed in
      let due : Due (map item_of i.items) done.shop.inventory = record {
        distinct = apart-map i.items i.apart_items;
        free =
            IsFree-map s.next_order_item done.shop.next_order_item done.shop.inventory i.items last
              keys;
      } in
      subst (λ (q : PlacedOrder × Shop). PlacedGraph s wanted (order_graph q.0 q.1))
        (sym done.result)
        (record {
          due =
              subst (λ (l : List PlacedItem). Due (map item_of l) done.shop.inventory) (sym items)
                due;
          units = λ pk.
              ap (λ (l : List PlacedItem). sum_of (units_due pk) (map item_of l)) items
              ∙ due-map pk i.items
              ∙ i.due pk
              ∙ omega arith;
        })

-- Where a checkout that wrote an order has returned and the customer's cancellation of that order
-- returns later, every product has the stock that it had before the checkout: with no order under the
-- token before, no other session between, keys in use below the next ones, and no row of the ledger
-- under the references of lines to come.
pub cancel-place_customer_order :
    (w : World) (a : Submission) (s : Shop) (c : Cart) (later : Call) (given : Text)
    {r : PlacedOrder × Shop} {h : Unit {0} × OrderGraph}
    → IsAlone w
    → cart_of a.customer s ≡ some c
    → order_with_token a.checkout_token s.orders ≡ none
    → IsKeyed s
    → ItemsKeyed s
    → UnusedIn s
    → RestoresFree s.next_order_item s.inventory
    → place_customer_order w a s ≡ ok r
    → cancel_customer_order later a.customer given (order_graph r.0 r.1) ≡ ok h
    → (pk v : ℕ) → stock_of pk s.inventory.products ≡ some v
    → stock_of pk h.1.inventory.products ≡ some v
unfolding order_graph
cancel-place_customer_order w a s c later given {r} {h} alone mine absent keyed items_keyed unused
      free placed cancelled pk v known =
    let n = place-NewOrder w a s c alone mine absent placed in
    let d = n.written in
    let done =
      complete_order-Completed w c d.place d.lines d.order d.saved_shop alone d.completed in
    let g =
      Completed-Graph w a s c alone keyed items_keyed unused free n.shop d.place d.lines d.order
        d.saved_shop (new-Starts w a s c alone keyed items_keyed unused free n) done in
    let (_, sold) = place_customer_order-Sells w a s c pk alone mine absent placed unused in
    let (left, now, e) = sold v known in
    let units =
      g.units pk ∙ wanted-units pk w.call.today s n.shop c n.items d.lines d.valid n.locked.lines in
    cancel_customer_order_returns_stock later a.customer given (order_graph r.0 r.1) cancelled g.due
      pk left now
    ∙ ap some (omega (arith, units, e))
