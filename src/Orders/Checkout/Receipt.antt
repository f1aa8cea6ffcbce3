-- ===== src/Orders/Checkout/Receipt.antt =====
-- The order that a checkout returns, orders/checkout.py, where no other session is between.
use zuvi_web.Prelude.{
  ◌≡◌, refl, sym, ap, ◌∙◌, subst, not, none, some, List, [], ◌∷◌, ◌++◌, arith, sum_of, select, ◌==◌,
}
use zuvi_web.Prelude.Text.{Text}
use zuvi_web.Prelude.Effect.{ok, running}
use zuvi_web.Shop.{Shop, Cart, CartItem, PlacedOrder, PlacedStoreOrder, PlacedItem}
use zuvi_web.Cart.{cart_of}
use zuvi_web.Orders.Validation.{Submission, World, Line}
use zuvi_web.Orders.Checkout.{Fulfillment}
use zuvi_web.Orders.Checkout.OrderRow.{
  order_with_token, owned_order, lines_subtotal, order_row, insert_order,
}
use zuvi_web.Orders.Checkout.Placement.{
  first_status, empty_cart, complete_order, place_customer_order,
}
use zuvi_web.Orders.Checkout.Steps.{Written, repeated, written, place-Placement}
use zuvi_web.Orders.Checkout.Balance.{store_subtotal}
use zuvi_web.Orders.Checkout.Locks.{IsAlone, Locked, lock_cart_items-Locked}
use zuvi_web.Orders.Checkout.Completed.{
  charge, in_cart, Receipt, saved-alone, charged-lines, grouped-lines, complete_order-Completed,
}

-- The end of the call, from the shop `u` under the locks.
module _ (w : World) (a : Submission) (alone : IsAlone w) (c : Cart) (items : List CartItem)
    (s u : Shop) (locked : Locked a.customer s c items u) where
  completed-Receipt :
      (f : Fulfillment) (lines : List Line) (o : PlacedOrder) (v : Shop) (number : Text)
      {r : PlacedOrder × Shop}
      → (o, v) ≡ insert_order a f (lines_subtotal lines) number u
      → lines_subtotal lines ≡ sum_of (charge s.inventory.products) (in_cart c s)
      → complete_order w c f lines o v ≡ ok r
      → Receipt c s r.0 r.1
  unfolding insert_order order_row first_status empty_cart
  completed-Receipt f lines o v number {r} inserted charged h =
      let n = lines_subtotal lines in
      let new = order_row a f n u.next_order number in
      let row : o ≡ new = ap (λ (q : PlacedOrder × Shop). q.0) inserted in
      let done = complete_order-Completed w c f lines o v alone h in
      let i = done.itemized in
      let total : sum_of store_subtotal i.news ≡ n = i.total ∙ omega (arith, grouped-lines lines) in
      subst (λ (q : PlacedOrder × Shop). Receipt c s q.0 q.1) (sym done.result)
        (record {
          news = i.news;
          items = i.items;
          orders =
              i.orders
              ∙ ap (λ (q : PlacedOrder × Shop). q.1.orders) inserted
              ∙ ap (λ (q : List PlacedOrder). q ++ new ∷ []) locked.orders
              ∙ ap (λ (q : PlacedOrder). s.orders ++ q ∷ []) (sym row);
          store_orders =
              i.store_orders
              ∙ ap (λ (q : PlacedOrder × Shop). q.1.store_orders ++ i.news) inserted
              ∙ ap (λ (q : List PlacedStoreOrder). q ++ i.news) locked.store_orders;
          order_items =
              i.order_items
              ∙ ap (λ (q : PlacedOrder × Shop). q.1.order_items ++ i.items) inserted
              ∙ ap (λ (q : List PlacedItem). q ++ i.items) locked.order_items;
          balanced = i.balanced;
          new = i.new;
          apart = i.apart;
          keyed = ap (λ (q : PlacedOrder). q.pk) row ∙ locked.next_order;
          placed = ap (λ (q : PlacedOrder). q.order.status) row;
          unpaid = ap (λ (q : PlacedOrder). q.order.payment_status) row;
          charged = ap (λ (q : PlacedOrder). q.order.items_subtotal) row ∙ charged;
          shared = ap (λ (q : PlacedOrder). q.order.items_subtotal) row ∙ sym total;
          payable =
              ap (λ (q : PlacedOrder). q.order.grand_total) row
              ∙ sym (ap (λ (q : PlacedOrder). q.order.items_subtotal) row);
          emptied = ap (select (λ (x : CartItem). not (x.cart == c.pk))) (
              i.cart_items
              ∙ ap (λ (q : PlacedOrder × Shop). q.1.cart_items) inserted
              ∙ locked.cart_items);
        })

-- A checkout that wrote an order: the shop under the locks, and the row that was inserted.
pub record NewOrder (w : World) (a : Submission) (s : Shop) (c : Cart) (r : PlacedOrder × Shop)
    : Type 0 where
  pub items : List CartItem
  pub shop : Shop
  pub locked : Locked a.customer s c items shop
  pub written : Written w a c items shop r
  pub number : Text
  pub inserted :
      (written.order, written.saved_shop)
      ≡ insert_order a written.place (lines_subtotal written.lines) number shop

module _ (w : World) (a : Submission) (s : Shop) (c : Cart) (alone : IsAlone w)
    (mine : cart_of a.customer s ≡ some c)
    (unused : order_with_token a.checkout_token s.orders ≡ none) where
  owned-NewOrder :
      (d : Cart) (items : List CartItem) (u : Shop) {r : PlacedOrder × Shop}
      → Locked a.customer s d items u
      → Written w a d items u r
      → NewOrder w a s d r
  owned-NewOrder d items u locked v =
      let (number, inserted) =
        saved-alone w a v.place (lines_subtotal v.lines) u v.order v.saved_shop alone v.saved in
      record {
        items = items;
        shop = u;
        locked = locked;
        written = v;
        number = number;
        inserted = inserted;
      }

  -- With no order under the token and no other session between, a checkout writes one.
  pub place-NewOrder :
      {r : PlacedOrder × Shop} → place_customer_order w a s ≡ ok r → NewOrder w a s c r
  unfolding owned_order running
  place-NewOrder {r} h =
      elim (place-Placement w a (λ q. q.orders ≡ s.orders)
        (λ k q e. ap (λ (x : Shop). x.orders) (alone.order k q) ∙ e) s refl
        (λ d items u locked. (lock_cart_items-Locked w a.customer s (alone.lock s) locked).orders)
        h) [
          | repeated found same ↦
              let absent : order_with_token a.checkout_token r.1.orders ≡ none =
                ap (order_with_token a.checkout_token) same ∙ unused in
              ground (arith, found.owned, absent)
          | written d items u locked v ↦
              let l = lock_cart_items-Locked w a.customer s (alone.lock s) locked in
              subst (λ (x : Cart). NewOrder w a s x r) (l.owner c mine)
                (owned-NewOrder d items u l v)
        ]

-- A checkout of the customer's cart, where no order is under the token yet and no other session is
-- between, that returns has written one new order, still to be confirmed and paid. Its store orders
-- are new, pending and different; the amount of each is the sum of its lines, theirs add up to the
-- order's amount, which is also the total to pay, and which is what the lines of the cart cost at the
-- products' prices in the tables. The cart's lines are gone, and no others.
pub place_customer_order-Receipt :
    (w : World) (a : Submission) (s : Shop) (c : Cart) {r : PlacedOrder × Shop}
    → IsAlone w
    → cart_of a.customer s ≡ some c
    → order_with_token a.checkout_token s.orders ≡ none
    → place_customer_order w a s ≡ ok r
    → Receipt c s r.0 r.1
place_customer_order-Receipt w a s c alone mine unused h =
    let n = place-NewOrder w a s c alone mine unused h in
    let v = n.written in
    completed-Receipt w a alone c n.items s n.shop n.locked v.place v.lines v.order v.saved_shop
      n.number n.inserted
      (charged-lines w s n.shop c n.items v.lines v.valid n.locked.inventory n.locked.lines)
      v.completed
