-- ===== src/Orders/Checkout/Placement.antt =====
-- orders/checkout.py: the rows of a new order are written, stock is deducted and the cart is cleared.
use zuvi_web.Prelude.{
  ℕ, Bool, true, false, not, ◌&&◌, ◌||◌, Option, none, some, List, [], ◌∷◌, ◌++◌, select, find, ltb,
  leb, ◌==◌,
}
use zuvi_web.Prelude.Sort.{Group, members, sort_by, group_by}
use zuvi_web.Prelude.Text.{text}
use zuvi_web.Prelude.Effect.{
  Result, ok, err, Action, pure, lift, get, modify, raise_if, or_raise, ◌>>=◌, ◌>>◌, validation,
  integrity, key_error, cart,
}
use zuvi_web.Orders.Model.{OrderStatus, StoreOrderStatus, client_ip}
use zuvi_web.Shop.{
  Shop, Cart, CartItem, PickupLocation, FulfillmentType, PlacedOrder, PlacedStoreOrder,
}
use zuvi_web.Cart.{touch_cart}
use zuvi_web.Orders.Validation.{
  Submission, World, Line, lock_cart_items, lock_products_for_items, build_validated_lines,
}
use zuvi_web.Orders.Checkout.{Fulfillment, store_ids, resolve_fulfillment}
use zuvi_web.Orders.Checkout.OrderRow.{
  get_existing_order_for_token, lines_subtotal, create_order_row,
}
use zuvi_web.Orders.Checkout.StoreRows.{store_order_full_clean, save_store_order, place_lines}

unfoldable pub first_store_status : World → PlacedStoreOrder → Shop → Shop
first_store_status w so s = record s {
  first_store_statuses =
      s.first_store_statuses
      ++ record {
        store_order = so.row.pk;
        new_status = StoreOrderStatus.pending;
        changed_by = w.call.actor;
        reason = text "Store order created at checkout.";
        ip_address = client_ip w.call.request;
      }
        ∷ [];
}

-- `pickup_by_store[store_id]`.
unfoldable pub pickup_for : Fulfillment → (store : ℕ) → Result (Option PickupLocation)
pickup_for f store = elim f.type [
  | FulfillmentType.delivery ↦ ok none
  | FulfillmentType.facility_pickup ↦
      elim (find (λ (l : PickupLocation). l.store == store) f.pickups) [
        | none ↦ err key_error
        | some l ↦ ok (some l)
      ]
]

unfoldable pub place_store_order :
    World → PlacedOrder → Fulfillment → Group Line → Action Shop (Unit {0})
place_store_order w o f g = do
  pickup ← lift (pickup_for f g.key)
  s ← get
  lift (store_order_full_clean o pickup g s.store_orders)
  r ← save_store_order w o pickup g
  so ← or_raise integrity r
  modify (first_store_status w so)
  place_lines w o so (members g)

unfoldable pub place_store_orders :
    World → PlacedOrder → Fulfillment → List (Group Line) → Action Shop (Unit {0})
place_store_orders w o f [] = pure tt
place_store_orders w o f (g ∷ gs) = do place_store_order w o f g; place_store_orders w o f gs

unfoldable pub first_status : World → PlacedOrder → Shop → Shop
first_status w o s = record s {
  first_statuses =
      s.first_statuses
      ++ record {
        order = o.pk;
        new_status = OrderStatus.placed;
        changed_by = w.call.actor;
        reason = text "Order placed at checkout.";
        ip_address = client_ip w.call.request;
      }
        ∷ [];
}

-- `CartItem.objects.filter(cart=cart).delete()` and `cart.save`.
unfoldable pub empty_cart : (now cart : ℕ) → Shop → Shop
empty_cart now pk s =
    touch_cart now pk
      (record s { cart_items = select (λ (i : CartItem). not (i.cart == pk)) s.cart_items })

abbrev pub by_store : Line → Line → Bool
by_store a b =
    ltb a.store.pk b.store.pk || (a.store.pk == b.store.pk && leb a.product.pk b.product.pk)

unfoldable pub lines_by_store : List Line → List (Group Line)
unfolding sort_by group_by
lines_by_store lines = group_by (λ (l : Line). l.store.pk) (sort_by by_store lines)

unfoldable pub complete_order :
    World → Cart → Fulfillment → List Line → PlacedOrder → Action Shop PlacedOrder
unfolding lines_by_store
complete_order w c f lines o = do
  modify (first_status w o)
  place_store_orders w o f (lines_by_store lines)
  modify (empty_cart w.call.now c.pk)
  pure o

unfoldable pub complete_unless :
    World → Cart → Fulfillment → List Line → PlacedOrder × Bool → Action Shop PlacedOrder
complete_unless w c f lines (o, true) = pure o
complete_unless w c f lines (o, false) = complete_order w c f lines o

abbrev pub is_nil {ℓ} : {A : Type ℓ} → List A → Bool
is_nil [] = true
is_nil (_ ∷ _) = false

-- With the cart and its lines locked and no order under the token.
unfoldable pub place_new : World → Submission → Cart → List CartItem → Action Shop PlacedOrder
unfolding lines_subtotal
place_new w a c items = do
  raise_if (is_nil items) (validation cart)
  s ← get
  lift (lock_products_for_items s.inventory.products items)
  lines ← lift (build_validated_lines w.call.today s items)
  f ← lift (resolve_fulfillment a (store_ids lines) s)
  r ← create_order_row w a f (lines_subtotal lines)
  complete_unless w c f lines r

abbrev pub unless_placed : Option PlacedOrder → Action Shop PlacedOrder → Action Shop PlacedOrder
unless_placed (some o) m = pure o
unless_placed none m = m

unfoldable pub place_locked : World → Submission → Action Shop PlacedOrder
place_locked w a = do
  (c, items) ← lock_cart_items w a.customer
  second ← get_existing_order_for_token a.customer a.checkout_token
  unless_placed second (place_new w a c items)

unfoldable pub place_customer_order : World → Submission → Action Shop PlacedOrder
place_customer_order w a = do
  first ← get_existing_order_for_token a.customer a.checkout_token
  unless_placed first (place_locked w a)
