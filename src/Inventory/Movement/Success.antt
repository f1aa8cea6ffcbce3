-- ===== src/Inventory/Movement/Success.antt =====
-- When `apply_stock_movement` returns: the conditions under which a movement of stock goes through,
-- and the tables that it leaves.
use zuvi_web.Prelude.{ℕ, ◌≤◌, ◌<◌, ◌≡◌, refl, false, none, some, [], ◌∷◌, ◌++◌, length, arith}
use zuvi_web.Prelude.Int.{pos, ◌+ℤ◌}
use zuvi_web.Prelude.Effect.{ok, running}
use zuvi_web.Catalog.{Product}
use zuvi_web.Inventory.Model.{
  transaction_type_direction, is_opening, InventoryTransaction, Inventory,
  validate_manufacturing_and_expiry_dates, product_row, set_stock,
}
use zuvi_web.Inventory.Movement.{
  Movement, validate_positive_quantity, require_reason, validate_unit_cost, signed_delta,
  reference_taken, max_units, full_clean, create_transaction_row, movement_row, move_stock,
  apply_stock_movement,
}

-- A movement with no cost, dates or purchase, as the order services make it.
pub record IsPlain (m : Movement) : Type 0 where
  pub no_cost : m.unit_cost ≡ none
  pub no_date : m.manufacturing_date ≡ none
  pub no_entry : m.purchase_entry ≡ none
  pub moves : m.skip_product_update ≡ false
  pub later : is_opening m.transaction_type ≡ false

create-total :
    (t : InventoryTransaction) (s : Inventory)
    → t.unit_cost ≡ none
    → length t.reference ≤ 100
    → reference_taken t.reference s.transactions ≡ false
    → create_transaction_row t s ≡ ok (t, record s { transactions = s.transactions ++ t ∷ [] })
unfolding create_transaction_row full_clean running
create-total t s h k free = ground arith

move_stock-total :
    (m : Movement) (n previous new : ℕ) (s : Inventory)
    → new < max_units
    → length m.reference ≤ 100
    → reference_taken m.reference s.transactions ≡ false
    → move_stock m none n previous (pos new) s
      ≡ ok (
        movement_row m none n previous new,
        record {
          products = set_stock m.product new s.products;
          transactions = s.transactions ++ movement_row m none n previous new ∷ [];
        },
      )
unfolding move_stock movement_row running
move_stock-total m n previous new s small short free = ground (
  arith,
  create-total (movement_row m none n previous new)
      (record s { products = set_stock m.product new s.products }) refl short free,
)

-- The tables after a movement of `n` units that leaves `new` units of product `p`.
pub apply-total :
    (today : ℕ) (m : Movement) (s : Inventory) (n : ℕ) (p : Product) (new : ℕ)
    → IsPlain m
    → validate_positive_quantity m.quantity ≡ ok n
    → require_reason m.transaction_type m.reason ≡ ok tt
    → product_row m.product s.products ≡ some p
    → p.store ≡ m.store
    → pos new
      ≡ pos p.stock_quantity +ℤ signed_delta (transaction_type_direction m.transaction_type) n
    → new < max_units
    → length m.reference ≤ 100
    → reference_taken m.reference s.transactions ≡ false
    → apply_stock_movement today m s
      ≡ ok (
        movement_row m none n p.stock_quantity new,
        record {
          products = set_stock m.product new s.products;
          transactions = s.transactions ++ movement_row m none n p.stock_quantity new ∷ [];
        },
      )
unfolding apply_stock_movement validate_unit_cost validate_manufacturing_and_expiry_dates running
apply-total today m s n p new plain quantified reasoned found owned balance small short free =
    ground (arith, plain, move_stock-total m n p.stock_quantity new s small short free)
