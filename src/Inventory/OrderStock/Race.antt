-- ===== src/Inventory/OrderStock/Race.antt =====
-- Two sessions with one reference, inventory/services.py: what the loser of the race gets.
use zuvi_web.Prelude.{ℕ, ◌≡◌, ◌≢◌, refl, ap, ◌∙◌, subst, true, false, none, arith}
use zuvi_web.Prelude.Text.{Text}
use zuvi_web.Prelude.Effect.{Result, ok, err, integrity, running, ran, lift-eq-ok, except_integrity}
use zuvi_web.Inventory.Model.{
  InventoryTransactionType, InventoryTransaction, Inventory,
  validate_manufacturing_and_expiry_dates,
}
use zuvi_web.Inventory.Movement.{
  Movement, validate_positive_quantity, require_reason, validate_unit_cost, reference_taken,
  full_clean, create_transaction_row, record_balance, move_stock, apply_stock_movement,
}
use zuvi_web.Inventory.Movement.Effects.{apply-Moved}
use zuvi_web.Inventory.OrderStock.Once.{row-reference}
use zuvi_web.Inventory.OrderStock.{
  find_transaction_by_reference, require_order_reference, OrderMovement, order_movement, winner_row,
  move_new, move_unless, move_once, deduct_order_stock,
}

create-ne-integrity :
    (t : InventoryTransaction) (s : Inventory) → create_transaction_row t s ≢ err integrity
unfolding create_transaction_row full_clean running
create-ne-integrity t s h = ground arith

apply-ne-integrity :
    (today : ℕ) (m : Movement) (s : Inventory) → apply_stock_movement today m s ≢ err integrity
unfolding apply_stock_movement validate_positive_quantity require_reason validate_unit_cost
    validate_manufacturing_and_expiry_dates record_balance move_stock running
apply-ne-integrity today m s h = grind (arith, create-ne-integrity)

except-ne :
    (today : ℕ) (m : Movement) (handler : Inventory → Result (InventoryTransaction × Inventory))
    (s : Inventory) {r : InventoryTransaction × Inventory}
    → apply_stock_movement today m s ≢ ok r
    → except_integrity (apply_stock_movement today m) handler s ≢ ok r
unfolding except_integrity
except-ne today m handler s no_row h = ground (arith, apply-ne-integrity today m s)

taken_blocks :
    (type : InventoryTransactionType) (reason notes : Text) (today : ℕ) (cleaned : Text)
    (o : OrderMovement) (s : Inventory) {r : InventoryTransaction × Inventory}
    → reference_taken cleaned s.transactions ≡ true
    → apply_stock_movement today (order_movement type reason notes cleaned o) s ≢ ok r
unfolding order_movement
taken_blocks type reason notes today cleaned o s {r} taken h =
    let (n, p, _, _, moved) =
      apply-Moved today (order_movement type reason notes cleaned o) s refl h in
    let named : r.0.reference ≡ cleaned =
      ap (λ (t : InventoryTransaction). t.reference) moved.row
      ∙ row-reference type reason notes o cleaned moved.cost n p.stock_quantity moved.new in
    let free = subst (λ (c : Text). reference_taken c s.transactions ≡ false) named moved.fresh in
    cc

race :
    (type : InventoryTransactionType) (reason notes : Text) (today : ℕ)
    (commits : Inventory → Inventory) (o : OrderMovement) (s : Inventory) (cleaned : Text)
    {r : InventoryTransaction × Inventory}
    → find_transaction_by_reference cleaned s.transactions ≡ none
    → reference_taken cleaned (commits s).transactions ≡ true
    → move_unless type reason notes today commits cleaned o
        (find_transaction_by_reference cleaned s.transactions)
        s
      ≢ ok r
unfolding move_unless move_new
race type reason notes today commits o s cleaned {r} absent taken h =
    let h₁ : move_new type reason notes today commits cleaned o s ≡ ok r = ground (arith, absent) in
    except-ne today (order_movement type reason notes cleaned o) (winner_row cleaned o type)
      (commits s) (taken_blocks type reason notes today cleaned o (commits s) taken)
      (ran tt (commits s) _ h₁)

once_race :
    (type : InventoryTransactionType) (reason notes : Text) (today : ℕ)
    (commits : Inventory → Inventory) (o : OrderMovement) (s : Inventory) (cleaned : Text)
    {r : InventoryTransaction × Inventory}
    → require_order_reference o.reference ≡ ok cleaned
    → find_transaction_by_reference cleaned s.transactions ≡ none
    → reference_taken cleaned (commits s).transactions ≡ true
    → move_once type reason notes today commits o s ≢ ok r
unfolding move_once
once_race type reason notes today commits o s cleaned {r} required absent taken h =
    let (c, same, h₁) = lift-eq-ok (require_order_reference o.reference) _ s h in
    let e : c ≡ cleaned = cc in
    race type reason notes today commits o s cleaned absent taken (
      subst
        (λ (k : Text).
          move_unless type reason notes today commits k o
            (find_transaction_by_reference k s.transactions) s
          ≡ ok r)
        e (ran s s _ h₁))

-- A deduction does not return where the first look at the ledger has not found its reference, and
-- another session commits a row with the reference before the product is locked.
pub deduct_race_fails :
    (today : ℕ) (commits : Inventory → Inventory) (o : OrderMovement) (s : Inventory)
    (cleaned : Text) {r : InventoryTransaction × Inventory}
    → require_order_reference o.reference ≡ ok cleaned
    → find_transaction_by_reference cleaned s.transactions ≡ none
    → reference_taken cleaned (commits s).transactions ≡ true
    → deduct_order_stock today commits o s ≢ ok r
unfolding deduct_order_stock
deduct_race_fails today commits o s cleaned required absent taken h =
    once_race _ _ _ today commits o s cleaned required absent taken h
