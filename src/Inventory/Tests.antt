-- ===== src/Inventory/Tests.antt =====
-- Runs of the inventory services on a shop with one product, and uses of their theorems.
use zuvi_web.Prelude.{ℕ, ◌≡◌, ◌≢◌, inl, refl, true, false, none, some, [], ◌∷◌, arith}
use zuvi_web.Prelude.Int.{◌+ℤ◌}
use zuvi_web.Prelude.Text.{Text, text, strip, lstrip, rstrip, is_space}
use zuvi_web.Prelude.Effect.{ok, running}
use zuvi_web.Decimal.{of_thousandths, round_half_even}
use zuvi_web.Catalog.{Product, ProductStatus}
use zuvi_web.Inventory.Model.{
  InventoryDirection, inbound, outbound, InventoryTransactionType, opening, stock_in, stock_out,
  customer_return, transaction_type_direction, reason_required, InventoryTransaction, Inventory,
  stock_of, validate_manufacturing_and_expiry_dates,
}
use zuvi_web.Inventory.Movement.{
  Movement, apply_stock_movement, validate_positive_quantity, quantize_quantity, require_reason,
  validate_unit_cost, signed_delta, opening_already_recorded, is_order_reference, reference_taken,
  full_clean, create_transaction_row, movement_row, record_balance, move_stock,
}
use zuvi_web.Inventory.Movement.Described.{CanMove}
use zuvi_web.Inventory.Ledger.{IsValid, apply-IsValid}
use zuvi_web.Inventory.Conservation.{Conserves, apply-Conserves}
use zuvi_web.Inventory.OrderStock.{
  OrderMovement, order_item_deduct_reference, order_item_restore_reference,
  find_transaction_by_reference, require_order_reference, assert_existing_order_txn_matches,
  order_movement, existing_row, winner_row, move_new, move_unless, move_once, deduct_order_stock,
  restore_order_stock,
}
use zuvi_web.Inventory.OrderStock.Once.{deduct_order_stock_once, restore_order_stock_once}
use zuvi_web.Inventory.OrderStock.References.{order_references_distinct}
use zuvi_web.Inventory.OrderStock.Race.{deduct_race_fails}
use zuvi_web.Inventory.Records.{
  conversion, convert_existing_opening_stock, products_needing_opening_stock_initialization,
  initialize_product, initialize_unless, initialize_products,
  initialize_opening_stock_from_catalogue,
}
use zuvi_web.Inventory.Records.Opening.{initialize_opening_stock_again}
use zuvi_web.Inventory.OrderStock.RoundTrip.{IsReturn, restore_undoes_deduct}

abbrev rice : ℕ → Product
rice n = record {
  pk = 1;
  store = 7;
  name = text "Rice";
  product_code = text "P1";
  sku = text "RICE-1";
  unit = text "KG";
  unit_value = some 1000;
  status = ProductStatus.approved;
  is_active = true;
  category_is_active = none;
  expiry_date = none;
  final_price = some 9900;
  stock_quantity = n;
}

abbrev shop : Inventory
shop = record { products = rice 10000 ∷ []; transactions = [] }

abbrev ordered : Text → OrderMovement
ordered ref = record {
  product = 1;
  store = 7;
  quantity = of_thousandths 2500;
  reference = ref;
  actor = some 3;
  reason = [];
  notes = [];
  ip_address = none;
  request = none;
}

abbrev deduct_text : Text
deduct_text = text "order-item:5:deduct"

abbrev restore_text : Text
restore_text = text "order-item:5:restore"

abbrev row :
    (type : InventoryTransactionType)
    → InventoryDirection
    → (previous new : ℕ) → (ref reason notes : Text) → InventoryTransaction
row type direction previous new ref reason notes = record {
  store = 7;
  product = 1;
  transaction_type = type;
  direction = direction;
  quantity = 2500;
  previous_quantity = previous;
  new_quantity = new;
  unit_cost = none;
  reference = ref;
  reason = reason;
  notes = notes;
  manufacturing_date = none;
  expiry_date = none;
  purchase_entry = none;
  purchase_entry_line = none;
  created_by = some 3;
  ip_address = none;
  is_system_generated = true;
}

abbrev deducted_row : InventoryTransaction
deducted_row =
    row stock_out outbound 10000 7500 deduct_text (text "Order stock deduction")
      (text "Stock deducted at checkout.")

abbrev sold : Inventory
sold = record { products = rice 7500 ∷ []; transactions = deducted_row ∷ [] }

abbrev restored_row : InventoryTransaction
restored_row =
    row customer_return inbound 7500 10000 restore_text (text "Order stock restoration")
      (text "Stock restored after order cancel/reject.")

abbrev returned : Inventory
returned = record { products = rice 10000 ∷ []; transactions = deducted_row ∷ restored_row ∷ [] }

unfoldable pub opened : Unit {0}
unfolding running strip lstrip rstrip is_space ◌+ℤ◌ round_half_even transaction_type_direction
    reason_required validate_manufacturing_and_expiry_dates apply_stock_movement
    validate_positive_quantity quantize_quantity require_reason validate_unit_cost signed_delta
    opening_already_recorded is_order_reference reference_taken full_clean create_transaction_row
    movement_row record_balance move_stock find_transaction_by_reference require_order_reference
    assert_existing_order_txn_matches order_movement existing_row winner_row move_new move_unless
    move_once deduct_order_stock restore_order_stock
opened = tt

deducts : deduct_order_stock 20 (λ s. s) (ordered deduct_text) shop ≡ ok (deducted_row, sold)
unfolding opened
deducts = refl

restores : restore_order_stock 21 (λ s. s) (ordered restore_text) sold ≡ ok (restored_row, returned)
unfolding opened
restores = refl

deduct_order_stock_once_example :
    deduct_order_stock 22 (λ s. s) (ordered deduct_text) sold ≡ ok (deducted_row, sold)
deduct_order_stock_once_example =
    deduct_order_stock_once 20 22 (λ s. s) (λ s. s) (ordered deduct_text) shop deducts

restore_order_stock_once_example :
    restore_order_stock 22 (λ s. s) (ordered restore_text) returned ≡ ok (restored_row, returned)
restore_order_stock_once_example =
    restore_order_stock_once 21 22 (λ s. s) (λ s. s) (ordered restore_text) sold restores

undoes : IsReturn shop (ordered deduct_text) (ordered restore_text) deduct_text restore_text
unfolding opened
undoes = record {
  same_product = refl;
  same_store = refl;
  same_quantity = refl;
  deducts = refl;
  restores = refl;
  differ = refl;
  short = omega arith;
  free_deduct = refl;
  free_restore = refl;
  fits = (omega arith, tt);
}

restore_undoes_deduct_example :
    (q : InventoryTransaction × Inventory) × (restore_order_stock 21
        (λ s. s)
        (ordered restore_text)
        sold
      ≡ ok q)
    × ((pk : ℕ) → stock_of pk q.1.products ≡ stock_of pk shop.products)
restore_undoes_deduct_example =
    restore_undoes_deduct 20 21 shop (ordered deduct_text) (ordered restore_text) deduct_text
      restore_text undoes deducts

abbrev delivery : Movement
delivery = record {
  product = 1;
  store = 7;
  transaction_type = stock_in;
  quantity = of_thousandths 2500;
  actor = some 3;
  reason = [];
  notes = [];
  reference = text "note 12";
  unit_cost = none;
  manufacturing_date = none;
  expiry_date = none;
  purchase_entry = none;
  purchase_entry_line = none;
  ip_address = none;
  request = none;
  is_system_generated = true;
  skip_product_update = false;
}

abbrev delivered_row : InventoryTransaction
delivered_row = row stock_in inbound 10000 12500 (text "note 12") [] []

abbrev stocked : Inventory
stocked = record { products = rice 12500 ∷ []; transactions = delivered_row ∷ [] }

delivers : apply_stock_movement 20 delivery shop ≡ ok (delivered_row, stocked)
unfolding opened
delivers = refl

shop-IsValid : IsValid shop
shop-IsValid = record { balanced = tt; once = tt; shows = λ pk t h. cc }

apply-IsValid_example : IsValid stocked
apply-IsValid_example = apply-IsValid 20 delivery shop (λ h. cc) delivers shop-IsValid

apply-Conserves_example : Conserves 1 shop stocked
apply-Conserves_example = apply-Conserves 20 1 delivery shop refl delivers

-- The conditions of the delivery are met.
delivery-CanMove : CanMove delivery shop 2500
unfolding opened
delivery-CanMove = record {
  some_units = omega arith;
  explained = tt;
  p = rice 10000;
  found = refl;
  owned = refl;
  new = 12500;
  balance = refl;
  fits = omega arith;
  short = omega arith;
  unused = inl refl;
}

-- Another session sells the same line first.
deduct_race_fails_example :
    deduct_order_stock 20 (λ s. sold) (ordered deduct_text) shop ≢ ok (deducted_row, sold)
unfolding opened
deduct_race_fails_example =
    deduct_race_fails 20 (λ s. sold) (ordered deduct_text) shop deduct_text refl refl refl

order_references_distinct_example :
    (order_item_deduct_reference 4 ≡ order_item_deduct_reference 5 → ◌≡◌ {A = ℕ} 4 5)
    × (order_item_restore_reference 4 ≡ order_item_restore_reference 5 → ◌≡◌ {A = ℕ} 4 5)
    × (order_item_deduct_reference 4 ≢ order_item_restore_reference 5)
order_references_distinct_example = order_references_distinct 4 5

abbrev opening_row : InventoryTransaction
opening_row = record {
  store = 7;
  product = 1;
  transaction_type = opening;
  direction = inbound;
  quantity = 10000;
  previous_quantity = 0;
  new_quantity = 10000;
  unit_cost = none;
  reference = [];
  reason = text "Initialized opening stock from existing catalogue balance";
  notes = [];
  manufacturing_date = none;
  expiry_date = none;
  purchase_entry = none;
  purchase_entry_line = none;
  created_by = none;
  ip_address = none;
  is_system_generated = true;
}

abbrev opened_shop : Inventory
opened_shop = record { products = rice 10000 ∷ []; transactions = opening_row ∷ [] }

initializes :
    initialize_opening_stock_from_catalogue 20 none shop ≡ ok (opening_row ∷ [], opened_shop)
unfolding opened conversion convert_existing_opening_stock
    products_needing_opening_stock_initialization initialize_product initialize_unless
    initialize_products initialize_opening_stock_from_catalogue
initializes = refl

initialize_opening_stock_again_example :
    (opened_shop.products ≡ shop.products)
    × (products_needing_opening_stock_initialization opened_shop ≡ [])
    × (initialize_opening_stock_from_catalogue 30 (some 3) opened_shop ≡ ok ([], opened_shop))
initialize_opening_stock_again_example =
    initialize_opening_stock_again 20 30 none (some 3) shop initializes
