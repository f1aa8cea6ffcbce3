-- ===== src/Orders/Checkout/OrderRow.antt =====
-- orders/checkout.py: the order under a checkout token, and the row of a new one.
use zuvi_web.Prelude.{
  ℕ, ◌+◌, Bool, true, false, not, ◌&&◌, ◌||◌, Option, none, some, List, [], ◌∷◌, ◌++◌, any, find,
  length, ltb, leb, ◌==◌, sum_of,
}
use zuvi_web.Prelude.Text.{Text, text_eq, strip, is_empty}
use zuvi_web.Prelude.Effect.{
  Result, ok, raise_when, Action, pure, lift, get, raise_if, raise, ◌>>=◌, ◌>>◌, validation,
  integrity, checkout_token, items_subtotal, delivery_address,
}
use zuvi_web.Inventory.Movement.{max_units}
use zuvi_web.Orders.Model.{PaymentStatus, OrderStatus}
use zuvi_web.Orders.Numbers.{
  generate_order_number, order_number_taken, save_numbered, order_number_max_attempts,
}
use zuvi_web.Shop.{Shop, CustomerAddress, DeliverySnapshot, FulfillmentType, PlacedOrder}
use zuvi_web.Orders.Validation.{Submission, World, Line}
use zuvi_web.Orders.Checkout.{Fulfillment}

abbrev pub order_with_token : Text → List PlacedOrder → Option PlacedOrder
order_with_token token = find (λ (o : PlacedOrder). text_eq o.checkout_token token)

unfoldable pub owned_order : (customer : ℕ) → Option PlacedOrder → Result (Option PlacedOrder)
owned_order customer none = ok none
owned_order customer (some o) =
    raise_when (not (o.order.customer == customer)) (validation checkout_token) (ok (some o))

unfoldable pub get_existing_order_for_token :
    (customer : ℕ) → Text → Action Shop (Option PlacedOrder)
get_existing_order_for_token customer token = do
  raise_if (is_empty token) (validation checkout_token)
  s ← get
  lift (owned_order customer (order_with_token token s.orders))

abbrev pub is_delivery : FulfillmentType → Bool
is_delivery FulfillmentType.delivery = true
is_delivery FulfillmentType.facility_pickup = false

abbrev pub address_key : Option CustomerAddress → Option ℕ
address_key none = none
address_key (some a) = some a.pk

abbrev pub address_details : Option CustomerAddress → Option DeliverySnapshot
address_details none = none
address_details (some a) = some a.details

abbrev pub lacks_details : Option DeliverySnapshot → Bool
lacks_details none = true
lacks_details (some d) =
    is_empty (strip d.line1)
    || is_empty (strip d.city)
    || is_empty (strip d.recipient_name)
    || is_empty (strip d.phone_number)

unfoldable pub lines_subtotal : List Line → ℕ
lines_subtotal lines = sum_of (λ (l : Line). l.line_total) lines

-- The row as it is written, with its key and number. There is no delivery charge and no discount.
unfoldable pub order_row :
    Submission → Fulfillment → (subtotal : ℕ) → (pk : ℕ) → (number : Text) → PlacedOrder
order_row a f subtotal pk number = record {
  pk = pk;
  checkout_token = a.checkout_token;
  fulfillment_type = f.type;
  payment_method = f.method;
  delivery_address = address_key f.address;
  delivery = address_details f.address;
  customer_notes = strip a.customer_notes;
  order = record {
    order_number = number;
    customer = a.customer;
    status = OrderStatus.placed;
    payment_status = PaymentStatus.pending;
    items_subtotal = subtotal;
    delivery_charge = 0;
    discount_total = 0;
    grand_total = subtotal;
    cancellation_reason = [];
    cancelled_at = none;
    cancelled_by = none;
    delivered_at = none;
    payment_collected_at = none;
  };
}

-- `Order.full_clean`: the limits of the fields, `clean`, and the unique token. The address columns have
-- the limits of the columns that they are copied from.
unfoldable pub order_full_clean :
    Submission → Fulfillment → (subtotal : ℕ) → List PlacedOrder → Result (Unit {0})
order_full_clean a f subtotal rows =
    raise_when (ltb 64 (length a.checkout_token)) (validation checkout_token) (
      raise_when (leb max_units subtotal) (validation items_subtotal) (
        raise_when (is_delivery f.type && lacks_details (address_details f.address))
          (validation delivery_address)
          (raise_when (any (λ (o : PlacedOrder). text_eq o.checkout_token a.checkout_token) rows)
            (validation checkout_token) (ok tt))))

-- The unique constraints of the orders: the number and the token.
unfoldable pub order_conflicts : Submission → Text → Shop → Bool
order_conflicts a number s =
    order_number_taken s.orders number
    || any (λ (o : PlacedOrder). text_eq o.checkout_token a.checkout_token) s.orders

unfoldable pub insert_order :
    Submission → Fulfillment → (subtotal : ℕ) → Text → Shop → PlacedOrder × Shop
insert_order a f subtotal number s =
    let o = order_row a f subtotal s.next_order number in
    (o, record s { orders = s.orders ++ o ∷ []; next_order = s.next_order + 1 })

unfoldable pub save_order :
    World → Submission → Fulfillment → (subtotal : ℕ) → Action Shop (Option PlacedOrder)
save_order w a f subtotal =
    save_numbered (λ k s. generate_order_number w.draws k s.orders) w.before_order
      (order_conflicts a) (insert_order a f subtotal) order_number_max_attempts 0

-- The order of the request that won, and whether there is one.
unfoldable pub winning_order : Submission → Option PlacedOrder → Action Shop (PlacedOrder × Bool)
winning_order a none = raise integrity
winning_order a (some o) = pure (o, true)

unfoldable pub saved_or_winning : Submission → Option PlacedOrder → Action Shop (PlacedOrder × Bool)
saved_or_winning a (some o) = pure (o, false)
saved_or_winning a none = do
  r ← get_existing_order_for_token a.customer a.checkout_token
  winning_order a r

unfoldable pub create_order_row :
    World → Submission → Fulfillment → (subtotal : ℕ) → Action Shop (PlacedOrder × Bool)
create_order_row w a f subtotal = do
  s ← get
  lift (order_full_clean a f subtotal s.orders)
  r ← save_order w a f subtotal
  saved_or_winning a r
