-- ===== src/Inventory/Movement.antt =====
-- inventory/services.py: `apply_stock_movement`, the one place where stock changes, with its
-- checks, and the insertion of a ledger row.
pub mod Effects
pub mod Success
pub mod Described
use zuvi_web.Prelude.{
  ℕ, ◌^◌, ◌≡◌, Bool, true, false, not, ◌&&◌, ◌||◌, Option, none, some, List, [], ◌∷◌, ◌++◌, ltb,
  leb, ◌==◌, if◌then◌else◌, any, length, is_some,
}
use zuvi_web.Prelude.Int.{ℤ, pos, negsuc, neg, ◌+ℤ◌, ltb_ℤ}
use zuvi_web.Prelude.Text.{Text, strip, is_empty, starts_with, text_eq, text, or_else}
use zuvi_web.Prelude.Effect.{
  Result, ok, err, raise_when, bind, validation, Action, pure, lift, get, modify, raise_if, raise,
  or_raise, ◌>>=◌, ◌>>◌, quantity, reason, unit_cost, product, purchase_entry, reference,
  does_not_exist, integrity, data_error, direction,
}
use zuvi_web.Decimal.{Decimal, round_half_even, quantize}
use zuvi_web.Pricing.{quantize_money}
use zuvi_web.Catalog.{Product}
use zuvi_web.Inventory.Model.{
  InventoryDirection, inbound, outbound, InventoryTransactionType, transaction_type_direction,
  reason_required, is_opening, InventoryTransaction, Inventory,
  validate_manufacturing_and_expiry_dates, product_row, set_stock,
}

-- The peer address that `get_client_ip` reads from a request, an IP address where there is one.
pub record Request : Type 0 where
  pub remote_addr : Option Text

pub record PurchaseRef : Type 0 where
  pub pk : ℕ
  pub store : ℕ

-- The keyword arguments. A product and a store are given by their keys.
pub record Movement : Type 0 where
  pub product : ℕ
  pub store : ℕ
  pub transaction_type : InventoryTransactionType
  pub quantity : Decimal
  pub actor : Option ℕ
  pub reason : Text
  pub notes : Text
  pub reference : Text
  pub unit_cost : Option Decimal
  pub manufacturing_date : Option ℕ
  pub expiry_date : Option ℕ
  pub purchase_entry : Option PurchaseRef
  pub purchase_entry_line : Option ℕ
  pub ip_address : Option Text
  pub request : Option Request
  pub is_system_generated : Bool
  pub skip_product_update : Bool

-- To thousandths, by the default rounding of a decimal context.
unfoldable pub quantize_quantity : Decimal → ℤ
unfolding round_half_even
quantize_quantity = quantize round_half_even 3

unfoldable pub validate_positive_quantity : Decimal → Result ℕ
validate_positive_quantity x = elim (quantize_quantity x) [
  | pos n ↦ raise_when (leb n 0) (validation quantity) (ok n)
  | negsuc n ↦ err (validation quantity)
]

unfoldable pub require_reason : InventoryTransactionType → Text → Result (Unit {0})
require_reason type text =
    raise_when (reason_required type && is_empty (strip text)) (validation reason) (ok tt)

unfoldable pub validate_unit_cost : Option Decimal → Result (Option ℕ)
validate_unit_cost none = ok none
validate_unit_cost (some cost) = elim (quantize_money cost) [
  | pos n ↦ ok (some n)
  | negsuc n ↦ err (validation unit_cost)
]

unfoldable pub signed_delta : InventoryDirection → ℕ → ℤ
signed_delta inbound n = pos n
signed_delta outbound n = neg n

unfoldable pub opening_already_recorded : ℕ → List InventoryTransaction → Bool
opening_already_recorded pk = any (λ t. t.product == pk && is_opening t.transaction_type)

abbrev pub order_item_reference_prefix : Text
order_item_reference_prefix = text "order-item:"

-- The condition of the unique constraint on `reference`, and its violation by a new row.
unfoldable pub is_order_reference : Text → Bool
is_order_reference r = starts_with order_item_reference_prefix r

unfoldable pub reference_taken : Text → List InventoryTransaction → Bool
reference_taken r ts = is_order_reference r && any (λ t. text_eq t.reference r) ts

-- Decimal fields of 12 digits, three of them after the point, and of 12 digits with two.
abbrev pub max_units : ℕ
max_units = 10 ^ 12

abbrev too_costly : Option ℕ → Bool
too_costly none = false
too_costly (some c) = leb max_units c

-- `full_clean` of a new row: the field limits, and the constraints of the table. The address is one
-- that its field accepts, as a server gives it, and the rows that the keys refer to exist: the callers
-- hold them. These two checks are left out.
unfoldable pub full_clean : InventoryTransaction → List InventoryTransaction → Result (Unit {0})
full_clean t ts = raise_when (too_costly t.unit_cost) (validation unit_cost) (
    raise_when (ltb 100 (length t.reference)) (validation reference)
      (raise_when (reference_taken t.reference ts) (validation reference) (ok tt)))

unfoldable pub create_transaction_row : InventoryTransaction → Action Inventory InventoryTransaction
create_transaction_row t = do
  s ← get
  lift (full_clean t s.transactions)
  modify (λ s. record s { transactions = s.transactions ++ t ∷ [] })
  pure t

abbrev resolved_ip : Movement → Option Text
resolved_ip m = elim m.ip_address [
  | some ip ↦ some ip
  | none ↦ elim m.request [ none ↦ none | some r ↦ r.remote_addr ]
]

abbrev entry_elsewhere : Option PurchaseRef → ℕ → Bool
entry_elsewhere none store = false
entry_elsewhere (some e) store = not (e.store == store)

abbrev entry_key : Option PurchaseRef → Option ℕ
entry_key none = none
entry_key (some e) = some e.pk

-- The new ledger row of a movement, with its balance before and after.
unfoldable pub movement_row :
    Movement → Option ℕ → (quantity previous new : ℕ) → InventoryTransaction
movement_row m cost n previous new = record {
  store = m.store;
  product = m.product;
  transaction_type = m.transaction_type;
  direction = transaction_type_direction m.transaction_type;
  quantity = n;
  previous_quantity = previous;
  new_quantity = new;
  unit_cost = cost;
  reference = m.reference;
  reason = strip m.reason;
  notes = m.notes;
  manufacturing_date = m.manufacturing_date;
  expiry_date = m.expiry_date;
  purchase_entry = entry_key m.purchase_entry;
  purchase_entry_line = m.purchase_entry_line;
  created_by = m.actor;
  ip_address = resolved_ip m;
  is_system_generated = m.is_system_generated;
}

-- `skip_product_update`: the balance is put on record and not changed.
unfoldable pub record_balance :
    Movement → Option ℕ → (n previous : ℕ) → Action Inventory InventoryTransaction
record_balance m cost n previous = do
  raise_if (leb previous 0) (validation quantity)
  raise_if (not (n == previous)) (validation quantity)
  create_transaction_row (movement_row m cost previous 0 previous)

-- The product row is written, then the ledger row. A balance of 13 digits is an overflow of the
-- column.
unfoldable pub move_stock :
    Movement → Option ℕ → (n previous : ℕ) → ℤ → Action Inventory InventoryTransaction
move_stock m cost n previous (negsuc _) = raise (validation quantity)
move_stock m cost n previous (pos new) = do
  raise_if (leb max_units new) data_error
  modify (λ s. record s { products = set_stock m.product new s.products })
  create_transaction_row (movement_row m cost n previous new)

-- `today` is the local date.
unfoldable pub apply_stock_movement : ℕ → Movement → Action Inventory InventoryTransaction
apply_stock_movement today m = do
  n ← lift (validate_positive_quantity m.quantity)
  lift (require_reason m.transaction_type m.reason)
  lift (validate_manufacturing_and_expiry_dates today m.manufacturing_date m.expiry_date)
  cost ← lift (validate_unit_cost m.unit_cost)
  s ← get
  locked ← or_raise does_not_exist (product_row m.product s.products)
  raise_if (not (locked.store == m.store)) (validation product)
  raise_if (entry_elsewhere m.purchase_entry m.store) (validation purchase_entry)
  raise_if (is_opening m.transaction_type && opening_already_recorded m.product s.transactions)
      (validation product)
  let previous = locked.stock_quantity
  let delta = signed_delta (transaction_type_direction m.transaction_type) n
  if m.skip_product_update
      then record_balance m cost n previous
      else move_stock m cost n previous (pos previous +ℤ delta)
