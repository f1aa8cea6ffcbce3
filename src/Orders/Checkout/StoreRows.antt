-- ===== src/Orders/Checkout/StoreRows.antt =====
-- orders/checkout.py: the rows of the store orders and of their lines.
use zuvi_web.Prelude.{
  ℕ, ◌+◌, Bool, true, false, not, ◌&&◌, ◌||◌, Option, none, some, List, [], ◌∷◌, ◌++◌, any, leb,
  ◌==◌, get_or,
}
use zuvi_web.Prelude.Sort.{Group, members}
use zuvi_web.Prelude.Text.{Text, text, decimal}
use zuvi_web.Prelude.Effect.{
  Result, ok, raise_when, Action, pure, lift, ◌>>=◌, ◌>>◌, validation, quantity, product,
  store_order, items_subtotal, line_total, pickup_location,
}
use zuvi_web.Decimal.{of_thousandths}
use zuvi_web.Inventory.Movement.{max_units}
use zuvi_web.Inventory.OrderStock.{OrderMovement, order_item_deduct_reference, deduct_order_stock}
use zuvi_web.Orders.Model.{StoreOrderStatus}
use zuvi_web.Orders.Numbers.{
  generate_store_order_number, store_order_number_taken, save_numbered, order_number_max_attempts,
}
use zuvi_web.Shop.{
  Shop, PickupLocation, FulfillmentType, PlacedOrder, PlacedStoreOrder, PlacedItem, on_stock,
}
use zuvi_web.Orders.Validation.{World, Line}
use zuvi_web.Orders.Checkout.OrderRow.{lines_subtotal}

abbrev pub location_key : Option PickupLocation → Option ℕ
location_key none = none
location_key (some l) = some l.pk

-- The row of a store's part of the order.
unfoldable pub store_order_row :
    PlacedOrder → Option PickupLocation → Group Line → (pk : ℕ) → (number : Text) → PlacedStoreOrder
unfolding lines_subtotal
store_order_row o pickup g pk number = record {
  order = o.pk;
  pickup_location = location_key pickup;
  store_name = g.first.store.name;
  store_code = g.first.store.store_code;
  store_total = lines_subtotal (members g);
  row = record {
    pk = pk;
    store = g.first.store.pk;
    store_order_number = number;
    status = StoreOrderStatus.pending;
    items_subtotal = lines_subtotal (members g);
    delivery_charge = 0;
  };
}

abbrev pub misplaced : FulfillmentType → (store : ℕ) → Option PickupLocation → Bool
misplaced FulfillmentType.delivery store none = false
misplaced FulfillmentType.delivery store (some _) = true
misplaced FulfillmentType.facility_pickup store none = true
misplaced FulfillmentType.facility_pickup store (some l) = not (l.store == store)

-- `StoreOrder.full_clean`: the limits of the fields, `clean`, and one row for each store.
unfoldable pub store_order_full_clean :
    PlacedOrder → Option PickupLocation → Group Line → List PlacedStoreOrder → Result (Unit {0})
unfolding lines_subtotal
store_order_full_clean o pickup g rows =
    raise_when (leb max_units (lines_subtotal (members g))) (validation items_subtotal) (
      raise_when (misplaced o.fulfillment_type g.first.store.pk pickup) (validation pickup_location)
        (raise_when
          (any (λ (r : PlacedStoreOrder). r.order == o.pk && r.row.store == g.first.store.pk) rows)
          (validation store_order) (ok tt)))

unfoldable pub store_order_conflicts : PlacedOrder → Group Line → Text → Shop → Bool
store_order_conflicts o g number s =
    store_order_number_taken s.store_orders number
    || any (λ (r : PlacedStoreOrder). r.order == o.pk && r.row.store == g.first.store.pk)
        s.store_orders

unfoldable pub insert_store_order :
    PlacedOrder → Option PickupLocation → Group Line → Text → Shop → PlacedStoreOrder × Shop
insert_store_order o pickup g number s =
    let r = store_order_row o pickup g s.next_store_order number in
    (
      r,
      record s {
        store_orders = s.store_orders ++ r ∷ [];
        next_store_order = s.next_store_order + 1;
      },
    )

unfoldable pub save_store_order :
    World → PlacedOrder → Option PickupLocation → Group Line → Action Shop (Option PlacedStoreOrder)
save_store_order w o pickup g =
    save_numbered (λ k s. generate_store_order_number (w.store_draws g.key) k s.store_orders)
      w.before_store_order (store_order_conflicts o g) (insert_store_order o pickup g)
      order_number_max_attempts 0

unfoldable pub item_row : PlacedStoreOrder → Line → (pk : ℕ) → PlacedItem
item_row so l pk = record {
  product_name = l.product.name;
  sku = l.product.sku;
  unit = l.product.unit;
  unit_value = get_or 0 l.product.unit_value;
  unit_price = l.unit_price;
  line_total = l.line_total;
  item = record {
    pk = pk;
    store_order = so.row.pk;
    product = l.product.pk;
    product_code = l.product.product_code;
    quantity = l.quantity;
    stock_restored = false;
    stock_restored_at = none;
    is_cancelled = false;
    cancelled_at = none;
    is_rejected = false;
    rejected_at = none;
  };
}

-- `OrderItem.full_clean`.
unfoldable pub item_full_clean : PlacedStoreOrder → Line → Result (Unit {0})
item_full_clean so l = raise_when (leb l.quantity 0) (validation quantity) (
    raise_when (leb max_units l.line_total) (validation line_total)
      (raise_when (not (l.product.store == so.row.store)) (validation product) (ok tt)))

unfoldable pub insert_item : PlacedStoreOrder → Line → Action Shop PlacedItem
insert_item so l s =
    let i = item_row so l s.next_order_item in
    ok (
      i,
      record s { order_items = s.order_items ++ i ∷ []; next_order_item = s.next_order_item + 1 },
    )

unfoldable pub line_deduction : World → PlacedOrder → Line → (pk : ℕ) → OrderMovement
line_deduction w o l pk = record {
  product = l.product.pk;
  store = l.store.pk;
  quantity = of_thousandths l.quantity;
  reference = order_item_deduct_reference pk;
  actor = w.call.actor;
  reason = text "Order " ++ o.order.order_number;
  notes = text "Stock deducted at checkout for order item " ++ (decimal pk ++ text ".");
  ip_address = none;
  request = w.call.request;
}

-- The product rows are locked: no other session is between.
unfoldable pub place_line : World → PlacedOrder → PlacedStoreOrder → Line → Action Shop (Unit {0})
place_line w o so l = do
  lift (item_full_clean so l)
  i ← insert_item so l
  on_stock (deduct_order_stock w.call.today (λ s. s) (line_deduction w o l i.item.pk))
  pure tt

unfoldable pub place_lines :
    World → PlacedOrder → PlacedStoreOrder → List Line → Action Shop (Unit {0})
place_lines w o so [] = pure tt
place_lines w o so (l ∷ ls) = do place_line w o so l; place_lines w o so ls
