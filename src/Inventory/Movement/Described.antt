-- ===== src/Inventory/Movement/Described.antt =====
-- `apply_stock_movement` of inventory/services.py against a description by stock and ledger.
use zuvi_web.Prelude.{
  ℕ, ◌+◌, ◌≤◌, ◌<◌, ◌≡◌, ◌≢◌, ◌⊎◌, false, some, [], ◌∷◌, ◌++◌, length, ◌==◌, All,
}
use zuvi_web.Prelude.Text.{Text, IsWritten}
use zuvi_web.Prelude.Effect.{reason}
use zuvi_web.Catalog.{Product}
use zuvi_web.Inventory.Model.{
  InventoryTransactionType, opening, purchase, stock_in, stock_out, adjustment_in, adjustment_out,
  damaged, expired, customer_return, supplier_return, InventoryTransaction, Inventory, product_row,
  stock_of,
}
use zuvi_web.Inventory.Movement.{Movement, is_order_reference, max_units}

-- What `n` units of a movement do to a balance: stock comes in, or goes out of what is there.
abbrev pub Balances : InventoryTransactionType → (previous n new : ℕ) → Type 0
Balances opening previous n new = new ≡ previous + n
Balances purchase previous n new = new ≡ previous + n
Balances stock_in previous n new = new ≡ previous + n
Balances adjustment_in previous n new = new ≡ previous + n
Balances customer_return previous n new = new ≡ previous + n
Balances stock_out previous n new = previous ≡ new + n
Balances adjustment_out previous n new = previous ≡ new + n
Balances damaged previous n new = previous ≡ new + n
Balances expired previous n new = previous ≡ new + n
Balances supplier_return previous n new = previous ≡ new + n

-- Corrections and losses are explained.
abbrev pub IsExplained : InventoryTransactionType → Text → Type 0
IsExplained stock_out given = IsWritten given
IsExplained adjustment_in given = IsWritten given
IsExplained adjustment_out given = IsWritten given
IsExplained damaged given = IsWritten given
IsExplained expired given = IsWritten given
IsExplained supplier_return given = IsWritten given
IsExplained opening given = Unit
IsExplained purchase given = Unit
IsExplained stock_in given = Unit
IsExplained customer_return given = Unit

-- When `n` units can move.
pub record CanMove (m : Movement) (s : Inventory) (n : ℕ) : Type 0 where
  pub some_units : 0 < n
  pub explained : IsExplained m.transaction_type m.reason
  pub p : Product
  pub found : product_row m.product s.products ≡ some p
  pub owned : p.store ≡ m.store
  pub new : ℕ
  pub balance : Balances m.transaction_type p.stock_quantity n new
  pub fits : new < max_units
  pub short : length m.reference ≤ 100
  pub unused :
      (is_order_reference m.reference ≡ false)
      ⊎ All (λ (t : InventoryTransaction). t.reference ≢ m.reference) s.transactions

-- The ledger row `r.0` tells the stock before and after, and it is the one new row.
pub record HasMoved (m : Movement) (s : Inventory) (n : ℕ) (r : InventoryTransaction × Inventory)
    : Type 0 where
  pub before : stock_of m.product s.products ≡ some r.0.previous_quantity
  pub after : stock_of m.product r.1.products ≡ some r.0.new_quantity
  pub others : (k : ℕ) → (m.product == k) ≡ false → stock_of k r.1.products ≡ stock_of k s.products
  pub balance : Balances m.transaction_type r.0.previous_quantity n r.0.new_quantity
  pub ledger : r.1.transactions ≡ s.transactions ++ r.0 ∷ []
  pub units : r.0.quantity ≡ n
  pub good : r.0.product ≡ m.product
  pub seller : r.0.store ≡ m.store
  pub kind : r.0.transaction_type ≡ m.transaction_type
  pub named : r.0.reference ≡ m.reference
