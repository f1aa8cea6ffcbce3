-- ===== src/Inventory/Model.antt =====
-- inventory/models.py: the kinds of stock movement, the rows of the ledger, and the tables that the
-- inventory services read and write.
use zuvi_web.Prelude.{
  ℕ, Bool, true, false, Option, none, some, List, [], ◌∷◌, ltb, ◌==◌, if◌then◌else◌, find,
}
use zuvi_web.Prelude.Text.{Text}
use zuvi_web.Prelude.Effect.{
  Field, Result, ok, raise_when, raise_fields, validation, manufacturing_date, expiry_date,
}
use zuvi_web.Catalog.{Product}

pub data InventoryDirection : Type 0 where
  inbound outbound : InventoryDirection

pub data InventoryTransactionType : Type 0 where
  opening purchase stock_in stock_out adjustment_in adjustment_out : InventoryTransactionType
  damaged expired customer_return supplier_return : InventoryTransactionType

unfoldable pub transaction_type_direction : InventoryTransactionType → InventoryDirection
transaction_type_direction opening = inbound
transaction_type_direction purchase = inbound
transaction_type_direction stock_in = inbound
transaction_type_direction stock_out = outbound
transaction_type_direction adjustment_in = inbound
transaction_type_direction adjustment_out = outbound
transaction_type_direction damaged = outbound
transaction_type_direction expired = outbound
transaction_type_direction customer_return = inbound
transaction_type_direction supplier_return = outbound

-- Membership in `REASON_REQUIRED_TYPES`.
unfoldable pub reason_required : InventoryTransactionType → Bool
reason_required stock_out = true
reason_required adjustment_in = true
reason_required adjustment_out = true
reason_required damaged = true
reason_required expired = true
reason_required supplier_return = true
reason_required _ = false

pub InventoryTransactionType-discrete : Discrete InventoryTransactionType
InventoryTransactionType-discrete = hlevel

abbrev pub is_opening : InventoryTransactionType → Bool
is_opening opening = true
is_opening _ = false

-- Quantities are in thousandths, costs in cents. The random transaction number is left out.
pub record InventoryTransaction : Type 0 where
  pub store : ℕ
  pub product : ℕ
  pub transaction_type : InventoryTransactionType
  pub direction : InventoryDirection
  pub quantity : ℕ
  pub previous_quantity : ℕ
  pub new_quantity : ℕ
  pub unit_cost : Option ℕ
  pub reference : Text
  pub reason : Text
  pub notes : Text
  pub manufacturing_date : Option ℕ
  pub expiry_date : Option ℕ
  pub purchase_entry : Option ℕ
  pub purchase_entry_line : Option ℕ
  pub created_by : Option ℕ
  pub ip_address : Option Text
  pub is_system_generated : Bool

-- The tables; a new row of the ledger is put at the end.
pub record Inventory : Type 0 where
  pub products : List Product
  pub transactions : List InventoryTransaction

abbrev key_if : Field → Bool → List Field → List Field
key_if f true fs = f ∷ fs
key_if f false fs = fs

-- `today` is the local date.
unfoldable pub validate_manufacturing_and_expiry_dates : ℕ → Option ℕ → Option ℕ → Result (Unit {0})
validate_manufacturing_and_expiry_dates today none expiry = ok tt
validate_manufacturing_and_expiry_dates today (some made) none =
    raise_when (ltb today made) (validation manufacturing_date) (ok tt)
validate_manufacturing_and_expiry_dates today (some made) (some expiry) =
    raise_fields
      (key_if manufacturing_date (ltb today made) (key_if expiry_date (ltb expiry made) []))

abbrev pub product_row : ℕ → List Product → Option Product
product_row pk = find (λ p. p.pk == pk)

-- `product.stock_quantity = n` and `save`.
abbrev pub set_stock : ℕ → ℕ → List Product → List Product
set_stock pk n [] = []
set_stock pk n (p ∷ ps) =
    (if p.pk == pk then record p { stock_quantity = n } else p) ∷ set_stock pk n ps

abbrev pub stock_of : ℕ → List Product → Option ℕ
stock_of pk [] = none
stock_of pk (p ∷ ps) = if p.pk == pk then some p.stock_quantity else stock_of pk ps
