-- ===== src/Orders/Model.antt =====
-- orders/models.py: the statuses, and the rows that belong to one order.
use zuvi_web.Prelude.{
  ℕ, Bool, true, Option, none, some, List, [], ◌∷◌, ◌++◌, ◌≡◌, arith, ◌==◌, if◌then◌else◌,
}
use zuvi_web.Prelude.Text.{Text}
use zuvi_web.Inventory.Model.{Inventory}
use zuvi_web.Inventory.Movement.{Request}

pub data PaymentStatus : Type 0 where
  pending collected cancelled : PaymentStatus

pub data OrderStatus : Type 0 where
  placed confirmed in_progress completed partially_cancelled cancelled : OrderStatus

pub data StoreOrderStatus : Type 0 where
  pending accepted preparing ready out_for_delivery ready_for_pickup : StoreOrderStatus
  completed cancelled rejected : StoreOrderStatus

abbrev order_status_index : OrderStatus → ℕ
order_status_index OrderStatus.placed = 0
order_status_index OrderStatus.confirmed = 1
order_status_index OrderStatus.in_progress = 2
order_status_index OrderStatus.completed = 3
order_status_index OrderStatus.partially_cancelled = 4
order_status_index OrderStatus.cancelled = 5

abbrev pub same_order_status : OrderStatus → OrderStatus → Bool
same_order_status a b = order_status_index a == order_status_index b

pub same_order_status→eq : (a b : OrderStatus) → same_order_status a b ≡ true → a ≡ b
same_order_status→eq a b h = ground arith

abbrev payment_status_index : PaymentStatus → ℕ
payment_status_index PaymentStatus.pending = 0
payment_status_index PaymentStatus.collected = 1
payment_status_index PaymentStatus.cancelled = 2

abbrev pub same_payment_status : PaymentStatus → PaymentStatus → Bool
same_payment_status a b = payment_status_index a == payment_status_index b

abbrev store_order_status_index : StoreOrderStatus → ℕ
store_order_status_index StoreOrderStatus.pending = 0
store_order_status_index StoreOrderStatus.accepted = 1
store_order_status_index StoreOrderStatus.preparing = 2
store_order_status_index StoreOrderStatus.ready = 3
store_order_status_index StoreOrderStatus.out_for_delivery = 4
store_order_status_index StoreOrderStatus.ready_for_pickup = 5
store_order_status_index StoreOrderStatus.completed = 6
store_order_status_index StoreOrderStatus.cancelled = 7
store_order_status_index StoreOrderStatus.rejected = 8

abbrev pub same_store_order_status : StoreOrderStatus → StoreOrderStatus → Bool
same_store_order_status a b = store_order_status_index a == store_order_status_index b

pub same_store_order_status→eq :
    (a b : StoreOrderStatus) → same_store_order_status a b ≡ true → a ≡ b
same_store_order_status→eq a b h = ground arith

pub same_store_order_status_refl : (a : StoreOrderStatus) → same_store_order_status a a ≡ true
same_store_order_status_refl a = ground arith

-- Moments are ordinals, users and customers are keys, amounts are in cents.
pub record Order : Type 0 where
  pub order_number : Text
  pub customer : ℕ
  pub status : OrderStatus
  pub payment_status : PaymentStatus
  pub items_subtotal : ℕ
  pub delivery_charge : ℕ
  pub discount_total : ℕ
  pub grand_total : ℕ
  pub cancellation_reason : Text
  pub cancelled_at : Option ℕ
  pub cancelled_by : Option ℕ
  pub delivered_at : Option ℕ
  pub payment_collected_at : Option ℕ

pub record StoreOrder : Type 0 where
  pub pk : ℕ
  pub store : ℕ
  pub store_order_number : Text
  pub status : StoreOrderStatus
  pub items_subtotal : ℕ
  pub delivery_charge : ℕ

-- The quantity is in thousandths.
pub record OrderItem : Type 0 where
  pub pk : ℕ
  pub store_order : ℕ
  pub product : ℕ
  pub product_code : Text
  pub quantity : ℕ
  pub stock_restored : Bool
  pub stock_restored_at : Option ℕ
  pub is_cancelled : Bool
  pub cancelled_at : Option ℕ
  pub is_rejected : Bool
  pub rejected_at : Option ℕ

pub record OrderStatusHistory : Type 0 where
  pub old_status : OrderStatus
  pub new_status : OrderStatus
  pub changed_by : Option ℕ
  pub reason : Text
  pub correction_note : Text
  pub ip_address : Option Text

pub record OrderPaymentHistory : Type 0 where
  pub old_payment_status : PaymentStatus
  pub new_payment_status : PaymentStatus
  pub changed_by : Option ℕ
  pub reason : Text
  pub correction_note : Text
  pub ip_address : Option Text

pub record StoreOrderStatusHistory : Type 0 where
  pub store_order : ℕ
  pub old_status : StoreOrderStatus
  pub new_status : StoreOrderStatus
  pub changed_by : Option ℕ
  pub reason : Text
  pub ip_address : Option Text

-- One order: its row, its store orders and items by key, its histories with the newest row last,
-- and the tables that stock is kept in.
pub record OrderGraph : Type 0 where
  pub order : Order
  pub store_orders : List StoreOrder
  pub order_items : List OrderItem
  pub status_history : List OrderStatusHistory
  pub payment_history : List OrderPaymentHistory
  pub store_status_history : List StoreOrderStatusHistory
  pub inventory : Inventory

-- Who calls a service, and when: `timezone.now()`, the local date, and the request.
pub record Call : Type 0 where
  pub now : ℕ
  pub today : ℕ
  pub actor : Option ℕ
  pub request : Option Request

-- `_client_ip(request)`.
abbrev pub client_ip : Option Request → Option Text
client_ip none = none
client_ip (some r) = r.remote_addr

abbrev pub put_order : Order → OrderGraph → OrderGraph
put_order o g = record g { order = o }

-- `store_order.save(...)`: the row with its key is replaced.
abbrev pub replace_store_order : StoreOrder → List StoreOrder → List StoreOrder
replace_store_order so [] = []
replace_store_order so (r ∷ rows) = (if r.pk == so.pk then so else r) ∷ replace_store_order so rows

abbrev pub put_store_order : StoreOrder → OrderGraph → OrderGraph
put_store_order so g = record g { store_orders = replace_store_order so g.store_orders }

abbrev pub replace_order_item : OrderItem → List OrderItem → List OrderItem
replace_order_item i [] = []
replace_order_item i (r ∷ rows) = (if r.pk == i.pk then i else r) ∷ replace_order_item i rows

abbrev pub put_order_item : OrderItem → OrderGraph → OrderGraph
put_order_item i g = record g { order_items = replace_order_item i g.order_items }

abbrev pub add_status_history : OrderStatusHistory → OrderGraph → OrderGraph
add_status_history h g = record g { status_history = g.status_history ++ h ∷ [] }

abbrev pub add_payment_history : OrderPaymentHistory → OrderGraph → OrderGraph
add_payment_history h g = record g { payment_history = g.payment_history ++ h ∷ [] }

abbrev pub add_store_status_history : StoreOrderStatusHistory → OrderGraph → OrderGraph
add_store_status_history h g = record g { store_status_history = g.store_status_history ++ h ∷ [] }
