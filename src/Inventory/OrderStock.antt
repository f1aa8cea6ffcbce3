-- ===== src/Inventory/OrderStock.antt =====
-- inventory/services.py: the references of order movements, and the two services that take stock
-- out at checkout and put it back, each once for a reference.
pub mod Lookup
pub mod Once
pub mod References
pub mod Race
pub mod Calls
pub mod RoundTrip
use zuvi_web.Prelude.{
  ℕ, ◌≡◌, Bool, true, false, not, ◌&&◌, ◌||◌, Option, none, some, List, ◌++◌, ◌==◌, if◌then◌else◌,
  find,
}
use zuvi_web.Prelude.Int.{ℤ, pos, negsuc}
use zuvi_web.Prelude.Text.{Text, text, text_eq, strip, is_empty, or_else, starts_with, decimal}
use zuvi_web.Prelude.Effect.{
  Result, ok, err, raise_when, validation, reference, integrity, Action, pure, get, modify, lift,
  or_raise, except_integrity, ◌>>=◌, ◌>>◌,
}
use zuvi_web.Decimal.{Decimal}
use zuvi_web.Inventory.Model.{
  InventoryTransactionType, opening, purchase, stock_in, stock_out, adjustment_in, adjustment_out,
  damaged, expired, customer_return, supplier_return, InventoryTransaction, Inventory,
}
use zuvi_web.Inventory.Movement.{
  Request, Movement, order_item_reference_prefix, quantize_quantity, apply_stock_movement,
}

unfoldable pub order_item_deduct_reference : ℕ → Text
order_item_deduct_reference pk = order_item_reference_prefix ++ (decimal pk ++ text ":deduct")

unfoldable pub order_item_restore_reference : ℕ → Text
order_item_restore_reference pk = order_item_reference_prefix ++ (decimal pk ++ text ":restore")

unfoldable pub find_transaction_by_reference :
    Text → List InventoryTransaction → Option InventoryTransaction
find_transaction_by_reference r ts =
    if is_empty (strip r) then none else find (λ t. text_eq t.reference r) ts

unfoldable pub require_order_reference : Text → Result Text
require_order_reference r =
    raise_when (not (starts_with order_item_reference_prefix (strip r))) (validation reference)
      (ok (strip r))

abbrev type_index : InventoryTransactionType → ℕ
type_index opening = 0
type_index purchase = 1
type_index stock_in = 2
type_index stock_out = 3
type_index adjustment_in = 4
type_index adjustment_out = 5
type_index damaged = 6
type_index expired = 7
type_index customer_return = 8
type_index supplier_return = 9

abbrev pub same_type : InventoryTransactionType → InventoryTransactionType → Bool
same_type a b = type_index a == type_index b

abbrev pub is_units : ℤ → ℕ → Bool
is_units (pos n) q = n == q
is_units (negsuc _) q = false

-- The arguments of the two services.
pub record OrderMovement : Type 0 where
  pub product : ℕ
  pub store : ℕ
  pub quantity : Decimal
  pub reference : Text
  pub actor : Option ℕ
  pub reason : Text
  pub notes : Text
  pub ip_address : Option Text
  pub request : Option Request

unfoldable pub assert_existing_order_txn_matches :
    InventoryTransaction → OrderMovement → InventoryTransactionType → Result (Unit {0})
assert_existing_order_txn_matches t o type =
    raise_when
      (not (t.product == o.product)
        || not (t.store == o.store)
        || not (same_type t.transaction_type type)
        || not (is_units (quantize_quantity o.quantity) t.quantity))
      (validation reference) (ok tt)

unfoldable pub order_movement :
    InventoryTransactionType
    → (default_reason default_notes cleaned : Text) → OrderMovement
    → Movement
order_movement type default_reason default_notes cleaned o = record {
  product = o.product;
  store = o.store;
  transaction_type = type;
  quantity = o.quantity;
  actor = o.actor;
  reason = or_else (strip o.reason) default_reason;
  notes = or_else o.notes default_notes;
  reference = cleaned;
  unit_cost = none;
  manufacturing_date = none;
  expiry_date = none;
  purchase_entry = none;
  purchase_entry_line = none;
  ip_address = o.ip_address;
  request = o.request;
  is_system_generated = true;
  skip_product_update = false;
}

-- The row that holds the reference, if it is of this movement.
unfoldable pub existing_row :
    InventoryTransaction
    → OrderMovement
    → InventoryTransactionType
    → Action Inventory InventoryTransaction
existing_row t o type = do lift (assert_existing_order_txn_matches t o type); pure t

-- The handler of the `IntegrityError`.
unfoldable pub winner_row :
    Text → OrderMovement → InventoryTransactionType → Action Inventory InventoryTransaction
winner_row cleaned o type = do
  s ← get
  t ← or_raise integrity (find_transaction_by_reference cleaned s.transactions)
  existing_row t o type

module _ (type : InventoryTransactionType) (default_reason default_notes : Text) where
  -- `commits` is what other sessions commit between the first look at the ledger and the row lock
  -- on the product.
  unfoldable pub move_new :
      (today : ℕ) (commits : Inventory → Inventory)
      → (cleaned : Text) → OrderMovement
      → Action Inventory InventoryTransaction
  move_new today commits cleaned o = do
    modify commits
    except_integrity
        (apply_stock_movement today (order_movement type default_reason default_notes cleaned o))
        (winner_row cleaned o type)

  -- By what the first look has found.
  unfoldable pub move_unless :
      (today : ℕ) (commits : Inventory → Inventory)
      → (cleaned : Text) → OrderMovement
      → Option InventoryTransaction
      → Action Inventory InventoryTransaction
  move_unless today commits cleaned o (some t) = existing_row t o type
  move_unless today commits cleaned o none = move_new today commits cleaned o

  -- The common body of the two services.
  unfoldable pub move_once :
      (today : ℕ) (commits : Inventory → Inventory)
      → OrderMovement
      → Action Inventory InventoryTransaction
  move_once today commits o = do
    cleaned ← lift (require_order_reference o.reference)
    s ← get
    move_unless today commits cleaned o (find_transaction_by_reference cleaned s.transactions)

unfoldable pub deduct_order_stock :
    ℕ → (Inventory → Inventory) → OrderMovement → Action Inventory InventoryTransaction
deduct_order_stock =
    move_once stock_out (text "Order stock deduction") (text "Stock deducted at checkout.")

unfoldable pub restore_order_stock :
    ℕ → (Inventory → Inventory) → OrderMovement → Action Inventory InventoryTransaction
restore_order_stock =
    move_once customer_return (text "Order stock restoration")
      (text "Stock restored after order cancel/reject.")
