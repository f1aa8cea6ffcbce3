-- ===== src/Inventory/Conservation.antt =====
-- Stock is conserved: inventory/services.py changes a balance by exactly the units of the row that
-- it adds to the ledger.
use zuvi_web.Prelude.{
  ℕ, ◌+◌, ◌≡◌, sym, ap, ◌∙◌, subst, true, false, Option, some, [], ◌∷◌, ◌++◌, ◌==◌, if◌then◌else◌,
  arith, inl, inr, Bool-cases, sum_of, sum_of-append,
}
use zuvi_web.Prelude.Int.{pos, ◌+ℤ◌}
use zuvi_web.Prelude.Effect.{ok}
use zuvi_web.Inventory.Model.{
  InventoryDirection, inbound, outbound, transaction_type_direction, InventoryTransaction,
  Inventory, set_stock, stock_of,
}
use zuvi_web.Inventory.Movement.{Movement, signed_delta, movement_row, apply_stock_movement}
use zuvi_web.Inventory.Movement.Effects.{apply-Moved}
use zuvi_web.Inventory.Ledger.{stock_of-set_self, stock_of-set_ne, stock_of-row}

-- The units of product `pk` that came in and that went out, over the ledger.
abbrev pub units_in : ℕ → InventoryTransaction → ℕ
units_in pk t =
    if t.product == pk then elim t.direction [ inbound ↦ t.quantity | outbound ↦ 0 ] else 0

abbrev pub units_out : ℕ → InventoryTransaction → ℕ
units_out pk t =
    if t.product == pk then elim t.direction [ inbound ↦ 0 | outbound ↦ t.quantity ] else 0

-- Stock before plus what came in since equals stock after plus what went out since.
abbrev pub Conserves : ℕ → Inventory → Inventory → Type 0
Conserves pk s s' =
    (v w : ℕ)
    → stock_of pk s.products ≡ some v
    → stock_of pk s'.products ≡ some w
    → v + sum_of (units_in pk) s'.transactions + sum_of (units_out pk) s.transactions
      ≡ w + sum_of (units_in pk) s.transactions + sum_of (units_out pk) s'.transactions

abbrev Steps : InventoryDirection → (n previous new : ℕ) → Type 0
Steps inbound n previous new = new ≡ previous + n
Steps outbound n previous new = new + n ≡ previous

balance_parts :
    (d : InventoryDirection) (n previous new : ℕ)
    → pos new ≡ pos previous +ℤ signed_delta d n
    → Steps d n previous new
unfolding ◌+ℤ◌ signed_delta
balance_parts inbound n previous new e = ground arith
balance_parts outbound n previous new e = ground arith

row-units :
    (m : Movement) (cost : Option ℕ) (n previous new pk : ℕ)
    → pos new ≡ pos previous +ℤ signed_delta (transaction_type_direction m.transaction_type) n
    → (m.product == pk) ≡ true
    → let t = movement_row m cost n previous new in previous + units_in pk t ≡ new + units_out pk t
unfolding movement_row
row-units m cost n previous new pk e same =
    ground (arith, balance_parts (transaction_type_direction m.transaction_type) n previous new e)

row-units_ne :
    (m : Movement) (cost : Option ℕ) (n previous new pk : ℕ)
    → (m.product == pk) ≡ false
    → let t = movement_row m cost n previous new in (units_in pk t ≡ 0) × (units_out pk t ≡ 0)
unfolding movement_row
row-units_ne m cost n previous new pk ne = ground arith

-- The sums over a ledger with one row more.
sum-row :
    (f : InventoryTransaction → ℕ) (s : Inventory) (r : InventoryTransaction × Inventory)
    → r.1.transactions ≡ s.transactions ++ r.0 ∷ []
    → sum_of f r.1.transactions ≡ sum_of f s.transactions + f r.0
sum-row f s r e = ap (sum_of f) e ∙ sum_of-append f s.transactions (r.0 ∷ []) ∙ omega arith

-- A movement that is not only put on record conserves the units of every product.
pub apply-Conserves :
    (today pk : ℕ) (m : Movement) (s : Inventory) {r : InventoryTransaction × Inventory}
    → m.skip_product_update ≡ false
    → apply_stock_movement today m s ≡ ok r
    → Conserves pk s r.1
apply-Conserves today pk m s {r} moves h v w ev ew =
    let (n, p, _, found, moved) = apply-Moved today m s moves h in
    let ins : sum_of (units_in pk) r.1.transactions
        ≡ sum_of (units_in pk) s.transactions + units_in pk r.0 =
      sum-row (units_in pk) s r moved.transactions in
    let outs : sum_of (units_out pk) r.1.transactions
        ≡ sum_of (units_out pk) s.transactions + units_out pk r.0 =
      sum-row (units_out pk) s r moved.transactions in
    let new_in : units_in pk r.0
        ≡ units_in pk (movement_row m moved.cost n p.stock_quantity moved.new) =
      ap (units_in pk) moved.row in
    let new_out : units_out pk r.0
        ≡ units_out pk (movement_row m moved.cost n p.stock_quantity moved.new) =
      ap (units_out pk) moved.row in
    let now : stock_of pk (set_stock m.product moved.new s.products) ≡ some w =
      ap (stock_of pk) (sym moved.products) ∙ ew in
    elim (Bool-cases (m.product == pk)) [
      | inl same ↦
          let e : m.product ≡ pk = ground arith in
          let was =
            subst (λ (j : ℕ). stock_of j s.products ≡ some p.stock_quantity) e
              (stock_of-row m.product s.products p found) in
          let is =
            subst
              (λ (j : ℕ). stock_of j (set_stock m.product moved.new s.products) ≡ some moved.new) e
              (stock_of-set_self m.product moved.new s.products p found) in
          let same_v : v ≡ p.stock_quantity = cc in
          let same_w : w ≡ moved.new = cc in
          omega (arith, row-units m moved.cost n p.stock_quantity moved.new pk moved.balance same)
      | inr differ ↦
          let same_v : v ≡ w = cc (stock_of-set_ne m.product moved.new pk s.products differ) in
          omega (arith, row-units_ne m moved.cost n p.stock_quantity moved.new pk differ)
    ]
