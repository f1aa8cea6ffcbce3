-- ===== src/Orders/Checkout.antt =====
-- orders/checkout.py and the checks of orders/services.py: an order is placed from a cart.
pub mod OrderRow
pub mod StoreRows
pub mod Placement
pub mod Steps
pub mod Rows
pub mod Once
pub mod Balance
pub mod Amounts
pub mod Itemized
pub mod Locks
pub mod Completed
pub mod Receipt
pub mod Units
pub mod Stock
pub mod Begins
pub mod Graph
pub mod Undone
pub mod Tests
use zuvi_web.Prelude.{
  ℕ, ◌+◌, ◌*◌, ◌^◌, Bool, true, false, not, ◌&&◌, ◌||◌, Option, none, some, List, [], ◌∷◌, ◌++◌,
  any, select, find, length, ltb, leb, ◌==◌, if◌then◌else◌, sum_of, get_or, map,
}
use zuvi_web.Prelude.Sort.{Group, members, sort_by, group_by}
use zuvi_web.Prelude.Text.{Text, text, text_eq, strip, is_empty, decimal}
use zuvi_web.Prelude.Effect.{
  Result, ok, err, bind, raise_when, Action, pure, lift, get, modify, raise_if, or_raise, raise,
  ◌>>=◌, ◌>>◌, validation, integrity, quantity, product, store_order, cart, checkout_token,
  fulfillment_type, payment_method, delivery_address_id, pickup_location_id, items_subtotal,
  delivery_address, line_total, pickup_location,
}
use zuvi_web.Decimal.{of_thousandths, round_half_even}
use zuvi_web.Catalog.{Product, ProductStatus}
use zuvi_web.Stores.{Store, StoreStatus}
use zuvi_web.Inventory.Model.{Inventory, product_row}
use zuvi_web.Inventory.Movement.{max_units}
use zuvi_web.Inventory.OrderStock.{OrderMovement, order_item_deduct_reference, deduct_order_stock}
use zuvi_web.Orders.Model.{
  PaymentStatus, OrderStatus, StoreOrderStatus, Order, StoreOrder, OrderItem, Call, client_ip,
}
use zuvi_web.Orders.Numbers.{
  Draws, generate_order_number, generate_store_order_number, order_number_taken,
  store_order_number_taken, save_numbered, order_number_max_attempts,
}
use zuvi_web.Shop.{
  Shop, Cart, CartItem, CustomerAddress, DeliverySnapshot, PickupLocation, FulfillmentType,
  PaymentMethod, PlacedOrder, PlacedStoreOrder, PlacedItem, FirstStatus, FirstStoreStatus, on_stock,
  store_row,
}
use zuvi_web.Cart.{get_or_create_cart_for_customer, touch_cart}
use zuvi_web.Orders.Validation.{
  FormKey, blank, unreadable, key, Submission, World, is_approved, is_active_status, store_sells,
  is_product_expired, has_price, validate_sellable_product, Line, line_amount, by_product,
  lock_cart_items, missing_product, lock_products_for_items, valid_line, line_of,
  build_validated_line, build_validated_lines,
}

-- Membership in `CHECKOUT_FULFILLMENT_TYPES`.
unfoldable pub offered_at_checkout : FulfillmentType → Bool
offered_at_checkout FulfillmentType.delivery = true
offered_at_checkout FulfillmentType.facility_pickup = false

abbrev is_cod : PaymentMethod → Bool
is_cod PaymentMethod.cod = true
is_cod PaymentMethod.pay_at_pickup = false

-- Either payment method fits a pickup.
unfoldable pub validate_payment_for_fulfillment :
    FulfillmentType → PaymentMethod → Result (Unit {0})
unfolding offered_at_checkout
validate_payment_for_fulfillment type method =
    raise_when (not (offered_at_checkout type)) (validation fulfillment_type) (elim type [
      | FulfillmentType.delivery ↦
          raise_when (not (is_cod method)) (validation payment_method) (ok tt)
      | FulfillmentType.facility_pickup ↦ ok tt
    ])

abbrev found_address : Option CustomerAddress → Result CustomerAddress
found_address none = err (validation delivery_address_id)
found_address (some a) = ok a

unfoldable pub get_owned_active_delivery_address :
    (customer : ℕ) → FormKey → List CustomerAddress → Result CustomerAddress
get_owned_active_delivery_address customer blank rows = err (validation delivery_address_id)
get_owned_active_delivery_address customer unreadable rows = err (validation delivery_address_id)
get_owned_active_delivery_address customer (key k) rows =
    found_address
      (find (λ (a : CustomerAddress). a.customer == customer && a.is_active && a.pk == k) rows)

abbrev store_is_active : List Store → ℕ → Bool
store_is_active stores pk = elim (store_row pk stores) [ none ↦ false | some s ↦ s.is_active ]

abbrev found_location : Option PickupLocation → Result PickupLocation
found_location none = err (validation pickup_location_id)
found_location (some l) = ok l

unfoldable pub get_valid_pickup_location : (store : ℕ) → FormKey → Shop → Result PickupLocation
get_valid_pickup_location store blank s = err (validation pickup_location_id)
get_valid_pickup_location store unreadable s = err (validation pickup_location_id)
get_valid_pickup_location store (key k) s = found_location (
    find
      (λ (l : PickupLocation).
        l.store == store && l.is_active && store_is_active s.stores store && l.pk == k)
      s.pickup_locations)

-- With one store in the cart, a blank entry falls back on the single field.
abbrev pickup_key : Submission → (single : Bool) → FormKey → FormKey
pickup_key a true blank = a.pickup_location_id
pickup_key a _ k = k

unfoldable pub parse_pickup_selections :
    Submission → (single : Bool) → List ℕ → Shop → Result (List PickupLocation)
parse_pickup_selections a single [] s = ok []
parse_pickup_selections a single (store ∷ stores) s =
    bind (get_valid_pickup_location store (pickup_key a single (a.pickup_location_of store)) s)
      λ l. bind (parse_pickup_selections a single stores s) λ ls. ok (l ∷ ls)

-- `sorted({line["store"].pk for line in lines})`.
unfoldable pub store_ids : List Line → List ℕ
unfolding sort_by group_by
store_ids lines =
    map (λ (g : Group Line). g.key)
      (group_by (λ (l : Line). l.store.pk)
        (sort_by (λ (a b : Line). leb a.store.pk b.store.pk) lines))

abbrev is_single : List ℕ → Bool
is_single (_ ∷ []) = true
is_single _ = false

pub record Fulfillment : Type 0 where
  pub type : FulfillmentType
  pub method : PaymentMethod
  pub address : Option CustomerAddress
  pub pickups : List PickupLocation

unfoldable pub chosen_place :
    Submission → List ℕ → Shop → FulfillmentType → PaymentMethod → Result Fulfillment
chosen_place a stores s FulfillmentType.delivery method =
    bind (get_owned_active_delivery_address a.customer a.delivery_address_id s.addresses) λ place.
      ok (record {
        type = FulfillmentType.delivery;
        method = method;
        address = some place;
        pickups = [];
      })
chosen_place a stores s FulfillmentType.facility_pickup method =
    bind (parse_pickup_selections a (is_single stores) stores s) λ places. ok (record {
      type = FulfillmentType.facility_pickup;
      method = method;
      address = none;
      pickups = places;
    })

unfoldable pub resolve_chosen :
    Submission → List ℕ → Shop → Option FulfillmentType → Option PaymentMethod → Result Fulfillment
resolve_chosen a stores s none method = err (validation fulfillment_type)
resolve_chosen a stores s (some type) none = err (validation payment_method)
resolve_chosen a stores s (some type) (some method) =
    bind (validate_payment_for_fulfillment type method) λ _. chosen_place a stores s type method

unfoldable pub resolve_fulfillment : Submission → List ℕ → Shop → Result Fulfillment
resolve_fulfillment a stores s = resolve_chosen a stores s a.fulfillment_type a.payment_method
