-- ===== src/Orders/Tests.antt =====
-- An order of two stores, and uses of the theorems on it.
use zuvi_web.Prelude.{
  ℕ, ◌+◌, ◌≡◌, refl, Bool, true, false, Option, none, some, List, [], ◌∷◌, sum_of,
}
use zuvi_web.Prelude.Text.{Text, text, strip, lstrip, rstrip, is_space, decimal}
use zuvi_web.Prelude.Int.{◌+ℤ◌}
use zuvi_web.Prelude.Effect.{ok, running}
use zuvi_web.Decimal.{round_half_even}
use zuvi_web.Catalog.{Product, ProductStatus}
use zuvi_web.Inventory.Model.{
  inbound, customer_return, transaction_type_direction, reason_required, InventoryTransaction,
  stock_of, validate_manufacturing_and_expiry_dates,
}
use zuvi_web.Inventory.Movement.{
  apply_stock_movement, validate_positive_quantity, quantize_quantity, require_reason,
  validate_unit_cost, signed_delta, opening_already_recorded, is_order_reference, reference_taken,
  full_clean, create_transaction_row, movement_row, move_stock,
}
use zuvi_web.Inventory.OrderStock.{
  order_item_restore_reference, find_transaction_by_reference, require_order_reference,
  order_movement, existing_row, winner_row, move_new, move_unless, move_once, restore_order_stock,
}
use zuvi_web.Orders.Model.{
  PaymentStatus, OrderStatus, StoreOrderStatus, Order, StoreOrder, OrderItem,
  StoreOrderStatusHistory, OrderGraph, Call,
}
use zuvi_web.Orders.Status.{
  non_chargeable, customer_cancellable, admin_cancellable, customer_cancel_blocking,
  customer_cancelable_store, store_order_active, validate_customer_order_cancellation,
  validate_admin_order_cancellation,
}
use zuvi_web.Orders.Cancellation as Cancellation
use zuvi_web.Orders.Lines.{
  mark_order_items_cancelled, put_inventory, restoration, restore_item, restore_unless,
  restore_items, restore_order_items_stock,
}
use zuvi_web.Orders.Cancellation.{
  cancel_store_order_row, cancel_store_orders, mark_order_cancelled, scaled_discount,
  payable_totals, recalculate_order_payable_totals, cancel_rows, cancel_graph,
  cancel_customer_order, cancel_order_by_admin,
}
use zuvi_web.Orders.Cancellation.Again.{cancel_customer_order_again, cancel_order_by_admin_again}
use zuvi_web.Orders.Cancellation.Returns.{
  cancel_customer_order_returns_stock, cancel_order_by_admin_returns_stock,
}
use zuvi_web.Orders.Cancellation.Units.{Due, units_due}

abbrev rice : ℕ → Product
rice n = record {
  pk = 1;
  store = 7;
  name = text "Rice";
  product_code = text "P1";
  sku = text "RICE-1";
  unit = text "KG";
  unit_value = some 1000;
  status = ProductStatus.approved;
  is_active = true;
  category_is_active = none;
  expiry_date = none;
  final_price = some 9900;
  stock_quantity = n;
}

abbrev line : Bool → Option ℕ → OrderItem
line b moment = record {
  pk = 5;
  store_order = 11;
  product = 1;
  product_code = text "P1";
  quantity = 2500;
  stock_restored = b;
  stock_restored_at = moment;
  is_cancelled = b;
  cancelled_at = moment;
  is_rejected = false;
  rejected_at = none;
}

abbrev pub slices : StoreOrderStatus → StoreOrderStatus → List StoreOrder
slices s t =
    record {
      pk = 11;
      store = 7;
      store_order_number = text "SO-1";
      status = s;
      items_subtotal = 20000;
      delivery_charge = 500;
    }
    ∷ record {
      pk = 12;
      store = 8;
      store_order_number = text "SO-2";
      status = t;
      items_subtotal = 10000;
      delivery_charge = 0;
    }
    ∷ []

abbrev pub placed_order : Order
placed_order = record {
  order_number = text "ORD-1";
  customer = 3;
  status = OrderStatus.placed;
  payment_status = PaymentStatus.pending;
  items_subtotal = 30000;
  delivery_charge = 500;
  discount_total = 2000;
  grand_total = 28500;
  cancellation_reason = [];
  cancelled_at = none;
  cancelled_by = none;
  delivered_at = none;
  payment_collected_at = none;
}

abbrev pub placed_graph : OrderGraph
placed_graph = record {
  order = placed_order;
  store_orders = slices StoreOrderStatus.pending StoreOrderStatus.pending;
  order_items = line false none ∷ [];
  status_history = [];
  payment_history = [];
  store_status_history = [];
  inventory = record { products = rice 7500 ∷ []; transactions = [] };
}

abbrev pub call : ℕ → Call
call now = record { now = now; today = 20; actor = some 4; request = none }

abbrev store_entry : (pk : ℕ) → StoreOrderStatus → StoreOrderStatusHistory
store_entry pk old = record {
  store_order = pk;
  old_status = old;
  new_status = StoreOrderStatus.cancelled;
  changed_by = some 4;
  reason = text "late";
  ip_address = none;
}

abbrev restored_row : Text → InventoryTransaction
restored_row why = record {
  store = 7;
  product = 1;
  transaction_type = customer_return;
  direction = inbound;
  quantity = 2500;
  previous_quantity = 7500;
  new_quantity = 10000;
  unit_cost = none;
  reference = text "order-item:5:restore";
  reason = why;
  notes = text "Restored from order item 5 (P1 × 2.500).";
  manufacturing_date = none;
  expiry_date = none;
  purchase_entry = none;
  purchase_entry_line = none;
  created_by = some 4;
  ip_address = none;
  is_system_generated = true;
}

abbrev pub cancelled_graph : Text → OrderGraph
cancelled_graph why = record {
  order = record placed_order {
    status = OrderStatus.cancelled;
    payment_status = PaymentStatus.cancelled;
    items_subtotal = 0;
    delivery_charge = 0;
    discount_total = 0;
    grand_total = 0;
    cancellation_reason = text "late";
    cancelled_at = some 100;
    cancelled_by = some 4;
  };
  store_orders = slices StoreOrderStatus.cancelled StoreOrderStatus.cancelled;
  order_items = line true (some 100) ∷ [];
  status_history =
      record {
        old_status = OrderStatus.placed;
        new_status = OrderStatus.cancelled;
        changed_by = some 4;
        reason = text "late";
        correction_note = [];
        ip_address = none;
      }
      ∷ [];
  payment_history = [];
  store_status_history =
      store_entry 11 StoreOrderStatus.pending ∷ store_entry 12 StoreOrderStatus.pending ∷ [];
  inventory = record { products = rice 10000 ∷ []; transactions = restored_row why ∷ [] };
}

unfoldable pub opened : Unit {0}
unfolding running decimal strip lstrip rstrip is_space ◌+ℤ◌ round_half_even
    transaction_type_direction reason_required validate_manufacturing_and_expiry_dates
    apply_stock_movement validate_positive_quantity quantize_quantity require_reason
    validate_unit_cost signed_delta opening_already_recorded is_order_reference reference_taken
    full_clean create_transaction_row movement_row move_stock order_item_restore_reference
    find_transaction_by_reference require_order_reference order_movement existing_row winner_row
    move_new move_unless move_once restore_order_stock non_chargeable customer_cancellable
    admin_cancellable customer_cancel_blocking customer_cancelable_store store_order_active
    validate_customer_order_cancellation validate_admin_order_cancellation
    Cancellation.require_reason mark_order_items_cancelled put_inventory restoration restore_item
    restore_unless restore_items restore_order_items_stock cancel_store_order_row
    cancel_store_orders mark_order_cancelled scaled_discount payable_totals
    recalculate_order_payable_totals cancel_rows cancel_graph cancel_customer_order
    cancel_order_by_admin
opened = tt

abbrev pub customer_why : Text
customer_why = text "Customer cancellation of ORD-1: late"

abbrev pub admin_why : Text
admin_why = text "Admin cancellation of ORD-1: late"

pub customer_cancels :
    cancel_customer_order (call 100) 3 (text " late ") placed_graph
    ≡ ok (tt, cancelled_graph customer_why)
unfolding opened
customer_cancels = refl

pub admin_cancels :
    cancel_order_by_admin (call 100) (text " late ") placed_graph
    ≡ ok (tt, cancelled_graph admin_why)
unfolding opened
admin_cancels = refl

reasoned : Cancellation.require_reason (text "again") ≡ ok (text "again")
unfolding opened
reasoned = refl

cancel_customer_order_again_example :
    cancel_customer_order (call 200) 3 (text "again") (cancelled_graph customer_why)
    ≡ ok (tt, cancelled_graph customer_why)
cancel_customer_order_again_example =
    cancel_customer_order_again (call 100) (call 200) 3 (text " late ") (text "again")
      (text "again") placed_graph customer_cancels reasoned

cancel_order_by_admin_again_example :
    cancel_order_by_admin (call 200) (text "again") (cancelled_graph admin_why)
    ≡ ok (tt, cancelled_graph admin_why)
cancel_order_by_admin_again_example =
    cancel_order_by_admin_again (call 100) (call 200) 4 (text " late ") (text "again")
      (text "again") placed_graph admin_cancels refl reasoned

placed-Due : Due placed_graph.order_items placed_graph.inventory
unfolding opened
placed-Due = record { distinct = (refl, tt); free = (λ open_line. refl, tt) }

cancel_customer_order_returns_stock_example :
    stock_of 1 (cancelled_graph customer_why).inventory.products
    ≡ some (7500 + sum_of (units_due 1) placed_graph.order_items)
cancel_customer_order_returns_stock_example =
    cancel_customer_order_returns_stock (call 100) 3 (text " late ") placed_graph customer_cancels
      placed-Due 1 7500 refl

cancel_order_by_admin_returns_stock_example :
    stock_of 1 (cancelled_graph admin_why).inventory.products
    ≡ some (7500 + sum_of (units_due 1) placed_graph.order_items)
cancel_order_by_admin_returns_stock_example =
    cancel_order_by_admin_returns_stock (call 100) (text " late ") placed_graph admin_cancels
      placed-Due 1 7500 refl
