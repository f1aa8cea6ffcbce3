-- ===== src/Shop.antt =====
-- cart/models.py, customers/models.py and orders/models.py: the tables that the cart and checkout
-- read and write.
use zuvi_web.Prelude.{ℕ, Bool, Option, List, find, ◌==◌}
use zuvi_web.Prelude.Text.{Text}
use zuvi_web.Prelude.Effect.{Result, ok, err, Action}
use zuvi_web.Decimal.{Decimal}
use zuvi_web.Stores.{Store}
use zuvi_web.Inventory.Model.{Inventory}
use zuvi_web.Orders.Model.{OrderStatus, StoreOrderStatus, Order, StoreOrder, OrderItem}

pub record Cart : Type 0 where
  pub pk : ℕ
  pub customer : ℕ
  pub updated_at : ℕ

-- The quantity is in thousandths, the price in cents.
pub record CartItem : Type 0 where
  pub pk : ℕ
  pub cart : ℕ
  pub product : ℕ
  pub quantity : ℕ
  pub unit_price_snapshot : Option ℕ

-- The columns of an address that an order copies.
pub record DeliverySnapshot : Type 0 where
  pub recipient_name : Text
  pub phone_number : Text
  pub line1 : Text
  pub line2 : Text
  pub landmark : Text
  pub city : Text
  pub district : Text
  pub state : Text
  pub postal_code : Text
  pub country : Text
  pub latitude : Option Decimal
  pub longitude : Option Decimal
  pub instructions : Text

pub record CustomerAddress : Type 0 where
  pub pk : ℕ
  pub customer : ℕ
  pub is_active : Bool
  pub details : DeliverySnapshot

pub record PickupLocation : Type 0 where
  pub pk : ℕ
  pub store : ℕ
  pub is_active : Bool

pub data FulfillmentType : Type 0 where
  delivery facility_pickup : FulfillmentType

pub data PaymentMethod : Type 0 where
  cod pay_at_pickup : PaymentMethod

-- The rows of an order with the columns that only checkout writes, around those that the services
-- of an order read.
pub record PlacedOrder : Type 0 where
  pub pk : ℕ
  pub checkout_token : Text
  pub fulfillment_type : FulfillmentType
  pub payment_method : PaymentMethod
  pub delivery_address : Option ℕ
  pub delivery : Option DeliverySnapshot
  pub customer_notes : Text
  pub order : Order

pub record PlacedStoreOrder : Type 0 where
  pub order : ℕ
  pub pickup_location : Option ℕ
  pub store_name : Text
  pub store_code : Text
  pub store_total : ℕ
  pub row : StoreOrder

pub record PlacedItem : Type 0 where
  pub product_name : Text
  pub sku : Text
  pub unit : Text
  pub unit_value : ℕ
  pub unit_price : ℕ
  pub line_total : ℕ
  pub item : OrderItem

-- The first rows of the two histories, with a blank old status.
pub record FirstStatus : Type 0 where
  pub order : ℕ
  pub new_status : OrderStatus
  pub changed_by : Option ℕ
  pub reason : Text
  pub ip_address : Option Text

pub record FirstStoreStatus : Type 0 where
  pub store_order : ℕ
  pub new_status : StoreOrderStatus
  pub changed_by : Option ℕ
  pub reason : Text
  pub ip_address : Option Text

-- The tables, and the next value of each sequence of keys. New rows are put at the end.
pub record Shop : Type 0 where
  pub stores : List Store
  pub carts : List Cart
  pub cart_items : List CartItem
  pub addresses : List CustomerAddress
  pub pickup_locations : List PickupLocation
  pub orders : List PlacedOrder
  pub store_orders : List PlacedStoreOrder
  pub order_items : List PlacedItem
  pub first_statuses : List FirstStatus
  pub first_store_statuses : List FirstStoreStatus
  pub inventory : Inventory
  pub next_cart : ℕ
  pub next_cart_item : ℕ
  pub next_order : ℕ
  pub next_store_order : ℕ
  pub next_order_item : ℕ

unfoldable pub put_stock : {A : Type 0} → Shop → Result (A × Inventory) → Result (A × Shop)
put_stock s (ok (a, t)) = ok (a, record s { inventory = t })
put_stock s (err e) = err e

-- A call of the inventory services.
abbrev pub on_stock : {A : Type 0} → Action Inventory A → Action Shop A
on_stock m s = put_stock s (m s.inventory)

abbrev pub store_row : ℕ → List Store → Option Store
store_row pk = find (λ r. r.pk == pk)
