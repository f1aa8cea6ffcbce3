-- ===== src/Orders/Checkout/Tests.antt =====
-- A cart of two stores that is checked out, and uses of the theorems on it.
use zuvi_web.Prelude.{ℕ, ◌+◌, ◌≡◌, refl, true, none, some, [], ◌∷◌, ◌++◌, arith, sum_of}
use zuvi_web.Prelude.Text.{text, decimal}
use zuvi_web.Prelude.Effect.{Result, ok, is_ok, err}
use zuvi_web.Catalog.{Product, ProductStatus}
use zuvi_web.Stores.{Store, StoreStatus}
use zuvi_web.Orders.Model.{OrderStatus, PaymentStatus}
use zuvi_web.Orders.Numbers.{
  Draws, generate_order_number, generate_store_order_number, order_number_taken,
  store_order_number_taken, save_once, save_numbered,
}
use zuvi_web.Shop.{
  Shop, Cart, CartItem, DeliverySnapshot, FulfillmentType, PaymentMethod, PlacedOrder, put_stock,
}
use zuvi_web.Orders.Validation.{
  blank, key, Submission, World, line_amount, validate_sellable_product, lock_cart_items,
  lock_products_for_items, line_of, build_validated_line, build_validated_lines,
}
use zuvi_web.Orders.Checkout.{
  validate_payment_for_fulfillment, get_owned_active_delivery_address, store_ids, chosen_place,
  resolve_chosen, resolve_fulfillment,
}
use zuvi_web.Orders.Checkout.OrderRow.{
  owned_order, get_existing_order_for_token, lines_subtotal, order_row, order_full_clean,
  order_conflicts, insert_order, save_order, winning_order, saved_or_winning, create_order_row,
}
use zuvi_web.Orders.Checkout.StoreRows.{
  store_order_row, store_order_full_clean, store_order_conflicts, insert_store_order,
  save_store_order, item_row, item_full_clean, insert_item, line_deduction, place_line, place_lines,
}
use zuvi_web.Orders.Checkout.Placement.{
  place_customer_order, first_store_status, pickup_for, place_store_order, place_store_orders,
  first_status, empty_cart, lines_by_store, complete_order, complete_unless, place_new,
  place_locked,
}
use zuvi_web.Inventory.Tests.{opened}
use zuvi_web.Cart.{get_or_create_cart_for_customer}
use zuvi_web.Prelude.Sort.{sort_by, group_by}
use zuvi_web.Inventory.OrderStock.{order_item_deduct_reference}
use zuvi_web.Orders.Numbers.Fresh.{FirstUnused, generate_order_number_first}
use zuvi_web.Orders.Lifecycle.{IsConsistent}
use zuvi_web.Orders.Lifecycle.Reachable.{here}
use zuvi_web.Orders.Checkout.Once.{place_customer_order_once}
use zuvi_web.Orders.Checkout.Locks.{IsAlone}
use zuvi_web.Orders.Checkout.Completed.{Receipt, in_cart}
use zuvi_web.Orders.Checkout.Receipt.{place_customer_order-Receipt}
use zuvi_web.Orders.Checkout.Units.{Sold}
use zuvi_web.Orders.Checkout.Stock.{UnusedIn, units_wanted, place_customer_order-Sells}
use zuvi_web.Orders.Checkout.Begins.{order_graph, place_customer_order-IsConsistent}
use zuvi_web.Orders
use zuvi_web.Inventory.Model.{stock_of}
use zuvi_web.Orders.Model.{OrderGraph, Call}
use zuvi_web.Orders.Cancellation.{cancel_customer_order}
use zuvi_web.Orders.Checkout.Graph.{RestoresFree}
use zuvi_web.Orders.Checkout.Undone.{cancel-place_customer_order}

abbrev pub goods : (pk store stock : ℕ) → Product
goods pk store stock = record {
  pk = pk;
  store = store;
  name = text "Rice";
  product_code = text "P1";
  sku = text "RICE-1";
  unit = text "KG";
  unit_value = some 1000;
  status = ProductStatus.approved;
  is_active = true;
  category_is_active = some true;
  expiry_date = none;
  final_price = some 9900;
  stock_quantity = stock;
}

abbrev seller : ℕ → Store
seller pk = record {
  pk = pk;
  name = text "Corner";
  store_code = text "S1";
  status = StoreStatus.active;
  is_active = true;
}

abbrev pub put_in : (pk product quantity : ℕ) → CartItem
put_in pk product quantity = record {
  pk = pk;
  cart = 1;
  product = product;
  quantity = quantity;
  unit_price_snapshot = some 9900;
}

abbrev home : DeliverySnapshot
home = record {
  recipient_name = text "Mo";
  phone_number = text "555";
  line1 = text "High St";
  line2 = [];
  landmark = [];
  city = text "Town";
  district = [];
  state = [];
  postal_code = [];
  country = [];
  latitude = none;
  longitude = none;
  instructions = [];
}

abbrev pub shop : Shop
shop = record {
  stores = seller 7 ∷ seller 8 ∷ [];
  carts = record { pk = 1; customer = 4; updated_at = 0 } ∷ [];
  cart_items = put_in 1 2 500 ∷ put_in 2 1 2500 ∷ [];
  addresses = record { pk = 3; customer = 4; is_active = true; details = home } ∷ [];
  pickup_locations = [];
  orders = [];
  store_orders = [];
  order_items = [];
  first_statuses = [];
  first_store_statuses = [];
  inventory = record { products = goods 1 7 10000 ∷ goods 2 8 6000 ∷ []; transactions = [] };
  next_cart = 2;
  next_cart_item = 3;
  next_order = 11;
  next_store_order = 21;
  next_order_item = 31;
}

abbrev drawn : Draws
drawn = record { date = text "20260101"; token = λ k i. text "AAAAAAAA" }

abbrev world : World
world = record {
  call = record { now = 50; today = 5; actor = some 9; request = none };
  draws = drawn;
  store_draws =
      λ store. record { date = text "20260101"; token = λ k i. (65 + store) ∷ text "AAAAAAA" };
  before_lock = λ s. s;
  before_order = λ k s. s;
  before_store_order = λ k s. s;
}

abbrev form : Submission
form = record {
  customer = 4;
  checkout_token = text "tok";
  fulfillment_type = some FulfillmentType.delivery;
  payment_method = some PaymentMethod.cod;
  delivery_address_id = key 3;
  pickup_location_of = λ s. blank;
  pickup_location_id = blank;
  customer_notes = text " ring ";
}

unfoldable places : Unit {0}
unfolding opened line_amount validate_sellable_product get_or_create_cart_for_customer
    lock_cart_items lock_products_for_items line_of build_validated_line build_validated_lines
    validate_payment_for_fulfillment get_owned_active_delivery_address store_ids chosen_place
    resolve_chosen resolve_fulfillment owned_order get_existing_order_for_token lines_subtotal
    order_row order_full_clean order_conflicts insert_order save_order winning_order
    saved_or_winning create_order_row store_order_row store_order_full_clean store_order_conflicts
    insert_store_order save_store_order item_row item_full_clean insert_item line_deduction
    place_line place_lines first_store_status pickup_for place_store_order place_store_orders
    first_status empty_cart lines_by_store complete_order complete_unless place_new place_locked
    place_customer_order generate_order_number generate_store_order_number order_number_taken
    store_order_number_taken save_once save_numbered sort_by group_by put_stock
    order_item_deduct_reference decimal
places = tt

-- What a call returns, or a default.
abbrev pub value_of : {A : Type 0} → A → Result A → A
value_of d (ok a) = a
value_of d (err _) = d

pub value_of-ok : {A : Type 0} (d : A) (r : Result A) → is_ok r ≡ true → r ≡ ok (value_of d r)
value_of-ok d (ok a) h = refl
value_of-ok d (err e) h = cc

abbrev no_order : PlacedOrder
no_order = record {
  pk = 0;
  checkout_token = [];
  fulfillment_type = FulfillmentType.delivery;
  payment_method = PaymentMethod.cod;
  delivery_address = none;
  delivery = none;
  customer_notes = [];
  order = record {
    order_number = [];
    customer = 0;
    status = OrderStatus.placed;
    payment_status = PaymentStatus.pending;
    items_subtotal = 0;
    delivery_charge = 0;
    discount_total = 0;
    grand_total = 0;
    cancellation_reason = [];
    cancelled_at = none;
    cancelled_by = none;
    delivered_at = none;
    payment_collected_at = none;
  };
}

abbrev placed : PlacedOrder × Shop
placed = value_of (no_order, shop) (place_customer_order world form shop)

returns : is_ok (place_customer_order world form shop) ≡ true
unfolding places
returns = refl

-- The call returns; the amount is that of two and a half and of half a unit at 99.00.
places_order : place_customer_order world form shop ≡ ok placed
places_order = value_of-ok (no_order, shop) (place_customer_order world form shop) returns

placed_total : placed.0.order.grand_total ≡ 29700
unfolding places
placed_total = refl

abbrev cart : Cart
cart = record { pk = 1; customer = 4; updated_at = 0 }

world-IsAlone : IsAlone world
world-IsAlone = record { lock = λ s. refl; order = λ k s. refl; store_order = λ k s. refl }

shop-UnusedIn : UnusedIn shop
unfolding opened
shop-UnusedIn k above = ground arith

place_customer_order_once_example : place_customer_order world form placed.1 ≡ ok placed
place_customer_order_once_example =
    place_customer_order_once world world form form shop
      (record { keeps = λ k token o s held. held }) refl refl places_order

place_customer_order-Receipt_example : Receipt cart shop placed.0 placed.1
place_customer_order-Receipt_example =
    place_customer_order-Receipt world form shop cart world-IsAlone refl refl places_order

place_customer_order-Sells_example :
    UnusedIn placed.1
    × Sold 1 (sum_of (units_wanted 1) (in_cart cart shop)) shop.inventory placed.1.inventory
place_customer_order-Sells_example =
    place_customer_order-Sells world form shop cart 1 world-IsAlone refl refl places_order
      shop-UnusedIn

place_customer_order-IsConsistent_example :
    IsConsistent placed.0.order (order_graph placed.0 placed.1).store_orders
unfolding order_graph
place_customer_order-IsConsistent_example =
    place_customer_order-IsConsistent world form shop cart {h = order_graph placed.0 placed.1}
      world-IsAlone refl refl places_order tt here

generate_order_number_first_example :
    FirstUnused
      (placed.0 ∷ [])
      (λ i. text "ORD-" ++ (text "20260101" ++ (text "-" ++ text "AAAAAAAA")))
      (generate_order_number drawn 0 (placed.0 ∷ []))
generate_order_number_first_example = generate_order_number_first drawn 0 (placed.0 ∷ [])

-- The order is cancelled by its customer.
abbrev later : Call
later = record { now = 90; today = 6; actor = some 9; request = none }

abbrev cancelled : Unit {0} × OrderGraph
cancelled =
    value_of (tt, order_graph placed.0 placed.1)
      (cancel_customer_order later 4 (text "late") (order_graph placed.0 placed.1))

cancels : is_ok (cancel_customer_order later 4 (text "late") (order_graph placed.0 placed.1)) ≡ true
unfolding places order_graph Orders.Tests.opened
cancels = refl

cancels_order :
    cancel_customer_order later 4 (text "late") (order_graph placed.0 placed.1) ≡ ok cancelled
cancels_order =
    value_of-ok (tt, order_graph placed.0 placed.1)
      (cancel_customer_order later 4 (text "late") (order_graph placed.0 placed.1)) cancels

shop-RestoresFree : RestoresFree 31 shop.inventory
unfolding opened
shop-RestoresFree k above = ground arith

cancel-place_customer_order_example : stock_of 1 cancelled.1.inventory.products ≡ some 10000
cancel-place_customer_order_example =
    cancel-place_customer_order world form shop cart later (text "late") world-IsAlone refl refl tt
      tt shop-UnusedIn shop-RestoresFree places_order cancels_order 1 10000 refl
