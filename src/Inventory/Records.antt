-- ===== src/Inventory/Records.antt =====
-- inventory/services.py: the named services that record a movement, and the opening stock of a
-- catalogue that had balances before it had a ledger.
pub mod Opening
use zuvi_web.Prelude.{
  ℕ, Bool, true, false, not, ◌&&◌, ◌||◌, Option, none, some, List, [], ◌∷◌, ◌++◌, ltb, leb, ◌==◌,
  if◌then◌else◌, any, select,
}
use zuvi_web.Prelude.Text.{Text, text, or_else}
use zuvi_web.Prelude.Effect.{
  Action, pure, get, raise_if, or_raise, does_not_exist, validation, stock_quantity, ◌>>=◌, ◌>>◌,
}
use zuvi_web.Decimal.{Decimal, of_thousandths}
use zuvi_web.Catalog.{Product}
use zuvi_web.Inventory.Model.{
  InventoryTransactionType, opening, stock_in, stock_out, adjustment_in, adjustment_out, damaged,
  expired, customer_return, supplier_return, InventoryTransaction, Inventory, product_row,
}
use zuvi_web.Inventory.Movement.{Request, Movement, apply_stock_movement}

-- The arguments that the services take.
pub record Entry : Type 0 where
  pub product : ℕ
  pub store : ℕ
  pub quantity : Decimal
  pub actor : Option ℕ
  pub reason : Text
  pub notes : Text
  pub reference : Text
  pub unit_cost : Option Decimal
  pub manufacturing_date : Option ℕ
  pub expiry_date : Option ℕ
  pub ip_address : Option Text
  pub request : Option Request

abbrev entry_movement : InventoryTransactionType → Entry → Movement
entry_movement type e = record {
  product = e.product;
  store = e.store;
  transaction_type = type;
  quantity = e.quantity;
  actor = e.actor;
  reason = e.reason;
  notes = e.notes;
  reference = e.reference;
  unit_cost = e.unit_cost;
  manufacturing_date = e.manufacturing_date;
  expiry_date = e.expiry_date;
  purchase_entry = none;
  purchase_entry_line = none;
  ip_address = e.ip_address;
  request = e.request;
  is_system_generated = false;
  skip_product_update = false;
}

-- Services that take no cost, and those that take no dates either.
abbrev without_cost : Entry → Entry
without_cost e = record e { unit_cost = none }

abbrev plain : Entry → Entry
plain e = record e { unit_cost = none; manufacturing_date = none; expiry_date = none }

unfoldable pub record_opening_stock : ℕ → Entry → Action Inventory InventoryTransaction
record_opening_stock today e = apply_stock_movement today (
    entry_movement opening
      (record (without_cost e) { reason = or_else e.reason (text "Opening stock") }))

unfoldable pub record_manual_stock_in : ℕ → Entry → Action Inventory InventoryTransaction
record_manual_stock_in today e = apply_stock_movement today (entry_movement stock_in e)

unfoldable pub record_manual_stock_out : ℕ → Entry → Action Inventory InventoryTransaction
record_manual_stock_out today e = apply_stock_movement today (entry_movement stock_out (plain e))

unfoldable pub record_adjustment_in : ℕ → Entry → Action Inventory InventoryTransaction
record_adjustment_in today e = apply_stock_movement today (entry_movement adjustment_in (plain e))

unfoldable pub record_adjustment_out : ℕ → Entry → Action Inventory InventoryTransaction
record_adjustment_out today e = apply_stock_movement today (entry_movement adjustment_out (plain e))

unfoldable pub record_damaged_stock : ℕ → Entry → Action Inventory InventoryTransaction
record_damaged_stock today e = apply_stock_movement today (entry_movement damaged (plain e))

unfoldable pub record_expired_stock : ℕ → Entry → Action Inventory InventoryTransaction
record_expired_stock today e = apply_stock_movement today (entry_movement expired (without_cost e))

unfoldable pub record_customer_return : ℕ → Entry → Action Inventory InventoryTransaction
record_customer_return today e = apply_stock_movement today (entry_movement customer_return e)

unfoldable pub record_supplier_return : ℕ → Entry → Action Inventory InventoryTransaction
record_supplier_return today e = apply_stock_movement today (entry_movement supplier_return e)

unfoldable pub conversion :
    (product store : ℕ) → Option ℕ → (reason : Text) → (stock : ℕ) → Movement
conversion product store actor reason stock = record {
  product = product;
  store = store;
  transaction_type = opening;
  quantity = of_thousandths stock;
  actor = actor;
  reason = or_else reason (text "Converted existing catalogue opening stock");
  notes = [];
  reference = [];
  unit_cost = none;
  manufacturing_date = none;
  expiry_date = none;
  purchase_entry = none;
  purchase_entry_line = none;
  ip_address = none;
  request = none;
  is_system_generated = true;
  skip_product_update = true;
}

-- With the default notes, reference, address and request.
unfoldable pub convert_existing_opening_stock :
    ℕ → (product store : ℕ) → Option ℕ → Text → Action Inventory InventoryTransaction
convert_existing_opening_stock today product store actor reason = do
  s ← get
  locked ← or_raise does_not_exist (product_row product s.products)
  apply_stock_movement today (conversion product store actor reason locked.stock_quantity)

abbrev pub has_history : List InventoryTransaction → ℕ → Bool
has_history ts pk = any (λ (t : InventoryTransaction). t.product == pk) ts

abbrev pub needs_opening : List InventoryTransaction → Product → Bool
needs_opening ts p = ltb 0 p.stock_quantity && not (has_history ts p.pk)

-- The products are in the order of their keys.
unfoldable pub products_needing_opening_stock_initialization : Inventory → List Product
products_needing_opening_stock_initialization s = select (needs_opening s.transactions) s.products

-- One product: it is converted, and its balance is read again.
unfoldable pub initialize_product : ℕ → Option ℕ → Product → Action Inventory InventoryTransaction
initialize_product today actor p = do
  t ←
      convert_existing_opening_stock today p.pk p.store actor
        (text "Initialized opening stock from existing catalogue balance")
  s ← get
  fresh ← or_raise does_not_exist (product_row p.pk s.products)
  raise_if (not (fresh.stock_quantity == p.stock_quantity)) (validation stock_quantity)
  pure t

-- A product is passed over if history has appeared, or if it has no stock.
unfoldable pub initialize_unless :
    ℕ → Option ℕ → Product → Bool → Action Inventory (List InventoryTransaction)
initialize_unless today actor p true = pure []
initialize_unless today actor p false = do t ← initialize_product today actor p; pure (t ∷ [])

unfoldable pub initialize_products :
    ℕ → Option ℕ → List Product → Action Inventory (List InventoryTransaction)
initialize_products today actor [] = pure []
initialize_products today actor (p ∷ ps) = do
  s ← get
  made ← initialize_unless today actor p (has_history s.transactions p.pk || leb p.stock_quantity 0)
  rest ← initialize_products today actor ps
  pure (made ++ rest)

-- `dry_run` is false. The rows that were made; the report counts them. Each conversion is a
-- transaction of its own, and one that raises ends the run.
unfoldable pub initialize_opening_stock_from_catalogue :
    ℕ → Option ℕ → Action Inventory (List InventoryTransaction)
initialize_opening_stock_from_catalogue today actor = do
  s ← get
  initialize_products today actor (products_needing_opening_stock_initialization s)
