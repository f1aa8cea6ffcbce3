-- ===== src/Inventory/OrderStock/Once.antt =====
-- An order movement happens once for its reference, inventory/services.py.
use zuvi_web.Prelude.{
  ℕ, ◌≡◌, refl, sym, ap, ◌∙◌, subst, true, false, Option, none, some, arith, inl, inr,
}
use zuvi_web.Prelude.Int.{pos}
use zuvi_web.Prelude.Text.{Text, text_eq, text_eq_refl}
use zuvi_web.Prelude.Effect.{
  ok, integrity, ran, lift-eq-ok, check-eq-ok, or_raise-eq-ok, except-eq-ok, running,
}
use zuvi_web.Decimal.{Decimal}
use zuvi_web.Inventory.Model.{InventoryTransactionType, InventoryTransaction, Inventory}
use zuvi_web.Inventory.Movement.{
  quantize_quantity, validate_positive_quantity, reference_taken, movement_row,
  apply_stock_movement,
}
use zuvi_web.Inventory.Movement.Effects.{apply-Moved}
use zuvi_web.Inventory.OrderStock.{
  find_transaction_by_reference, require_order_reference, OrderMovement,
  assert_existing_order_txn_matches, order_movement, existing_row, winner_row, move_new,
  move_unless, move_once, deduct_order_stock, restore_order_stock,
}
use zuvi_web.Inventory.OrderStock.Lookup.{require-eq-ok, Holds, found_last, quantized}

module _ (type : InventoryTransactionType) (default_reason default_notes : Text) where
  Holds-again :
      (today : ℕ) (commits : Inventory → Inventory) (o : OrderMovement)
      {r : InventoryTransaction × Inventory}
      → Holds type o r
      → move_once type default_reason default_notes today commits o r.1 ≡ ok r
  unfolding move_once move_unless existing_row running
  Holds-again today commits o h = ground (arith, h.required, h.found, h.matched)

  -- What the first look finds is returned, and the tables stay.
  existing-Holds :
      (o : OrderMovement) (cleaned : Text) (t : InventoryTransaction) (s : Inventory)
      {r : InventoryTransaction × Inventory}
      → require_order_reference o.reference ≡ ok cleaned
      → find_transaction_by_reference cleaned s.transactions ≡ some t
      → existing_row t o type s ≡ ok r
      → Holds type o r × (r ≡ (t, s))
  unfolding existing_row
  existing-Holds o cleaned t s {r} required found h =
      let (matched, h₁) = check-eq-ok (assert_existing_order_txn_matches t o type) _ s h in
      let same : r ≡ (t, s) = cc h₁ in
      let holds : Holds type o (t, s) = record {
        cleaned = cleaned;
        required = required;
        found = found;
        matched = matched;
      } in
      (subst (Holds type o) (sym same) holds, same)

  pub skips :
      (cleaned : Text) (o : OrderMovement)
      → (order_movement type default_reason default_notes cleaned o).skip_product_update ≡ false
  unfolding order_movement
  skips cleaned o = refl

  pub row-reference :
      (o : OrderMovement) (cleaned : Text) (cost : Option ℕ) (n previous new : ℕ)
      → (movement_row
          (order_movement type default_reason default_notes cleaned o)
          cost
          n
          previous
          new).reference
        ≡ cleaned
  unfolding movement_row order_movement
  row-reference o cleaned cost n previous new = refl

  row-matches :
      (o : OrderMovement) (cleaned : Text) (cost : Option ℕ) (n previous new : ℕ)
      → quantize_quantity o.quantity ≡ pos n
      → assert_existing_order_txn_matches
          (movement_row
            (order_movement type default_reason default_notes cleaned o)
            cost
            n
            previous
            new)
          o
          type
        ≡ ok tt
  unfolding movement_row order_movement assert_existing_order_txn_matches running
  row-matches o cleaned cost n previous new e = ground arith

  pub quantity-order_movement :
      (o : OrderMovement) (cleaned : Text)
      → (order_movement type default_reason default_notes cleaned o).quantity ≡ o.quantity
  unfolding order_movement
  quantity-order_movement o cleaned = refl

  -- A new row holds the reference.
  moved-Holds :
      (today : ℕ) (o : OrderMovement) (cleaned : Text) (s : Inventory)
      {r : InventoryTransaction × Inventory}
      → require_order_reference o.reference ≡ ok cleaned
      → apply_stock_movement today (order_movement type default_reason default_notes cleaned o) s
        ≡ ok r
      → Holds type o r
  moved-Holds today o cleaned s {r} required h =
      let m = order_movement type default_reason default_notes cleaned o in
      let (n, p, quantified, _, moved) = apply-Moved today m s (skips cleaned o) h in
      let (_, prefixed) = require-eq-ok o.reference required in
      let named : r.0.reference ≡ cleaned =
        ap (λ (t : InventoryTransaction). t.reference) moved.row
        ∙ row-reference o cleaned moved.cost n p.stock_quantity moved.new in
      let units : quantize_quantity o.quantity ≡ pos n = quantized o.quantity (
        subst (λ (x : Decimal). validate_positive_quantity x ≡ ok n)
          (quantity-order_movement o cleaned) quantified) in
      record {
        cleaned = cleaned;
        required = required;
        found =
            ap (find_transaction_by_reference cleaned) moved.transactions
            ∙ found_last cleaned s.transactions r.0 prefixed
                (subst (λ (c : Text). reference_taken c s.transactions ≡ false) named moved.fresh)
                (subst (λ (c : Text). text_eq r.0.reference c ≡ true) named
                  (text_eq_refl r.0.reference));
        matched =
            subst (λ (t : InventoryTransaction). assert_existing_order_txn_matches t o type ≡ ok tt)
              (sym moved.row) (row-matches o cleaned moved.cost n p.stock_quantity moved.new units);
      }

  winner-Holds :
      (o : OrderMovement) (cleaned : Text) (s : Inventory) {r : InventoryTransaction × Inventory}
      → require_order_reference o.reference ≡ ok cleaned
      → winner_row cleaned o type s ≡ ok r
      → Holds type o r
  unfolding winner_row
  winner-Holds o cleaned s required h =
      let h₁ = ran s s _ h in
      let (t, found, h₂) =
        or_raise-eq-ok integrity (find_transaction_by_reference cleaned s.transactions) _ s h₁ in
      (existing-Holds o cleaned t s required found h₂).0

  move_new-Holds :
      (today : ℕ) (commits : Inventory → Inventory) (cleaned : Text) (o : OrderMovement)
      (s : Inventory) {r : InventoryTransaction × Inventory}
      → require_order_reference o.reference ≡ ok cleaned
      → move_new type default_reason default_notes today commits cleaned o s ≡ ok r
      → Holds type o r
  unfolding move_new
  move_new-Holds today commits cleaned o s required h =
      let m = order_movement type default_reason default_notes cleaned o in
      elim (except-eq-ok (apply_stock_movement today m) (winner_row cleaned o type) (commits s)
        (ran tt (commits s) _ h)) [
          | inl moved ↦ moved-Holds today o cleaned (commits s) required moved
          | inr won ↦ winner-Holds o cleaned (commits s) required won
        ]

  move_unless-Holds :
      (today : ℕ) (commits : Inventory → Inventory) (cleaned : Text) (o : OrderMovement)
      (s : Inventory) (found : Option InventoryTransaction) {r : InventoryTransaction × Inventory}
      → require_order_reference o.reference ≡ ok cleaned
      → find_transaction_by_reference cleaned s.transactions ≡ found
      → move_unless type default_reason default_notes today commits cleaned o found s ≡ ok r
      → Holds type o r
  unfolding move_unless
  move_unless-Holds today commits cleaned o s none required e h =
      move_new-Holds today commits cleaned o s required h
  move_unless-Holds today commits cleaned o s (some t) required e h =
      (existing-Holds o cleaned t s required e h).0

  -- Whatever way a call returns, the ledger holds its row.
  move_once-Holds :
      (today : ℕ) (commits : Inventory → Inventory) (o : OrderMovement) (s : Inventory)
      {r : InventoryTransaction × Inventory}
      → move_once type default_reason default_notes today commits o s ≡ ok r
      → Holds type o r
  unfolding move_once
  move_once-Holds today commits o s h =
      let (cleaned, required, h₁) = lift-eq-ok (require_order_reference o.reference) _ s h in
      move_unless-Holds today commits cleaned o s _ required refl (ran s s _ h₁)

-- A second deduction for the reference of a call that returned gives the same row and changes
-- nothing, whatever other sessions commit meanwhile.
pub deduct_order_stock_once :
    (today later : ℕ) (commits commits' : Inventory → Inventory) (o : OrderMovement) (s : Inventory)
    {r : InventoryTransaction × Inventory}
    → deduct_order_stock today commits o s ≡ ok r
    → deduct_order_stock later commits' o r.1 ≡ ok r
unfolding deduct_order_stock
deduct_order_stock_once today later commits commits' o s h =
    Holds-again _ _ _ later commits' o (move_once-Holds _ _ _ today commits o s h)

-- A second restoration for the reference of a call that returned gives the same row and changes
-- nothing, whatever other sessions commit meanwhile.
pub restore_order_stock_once :
    (today later : ℕ) (commits commits' : Inventory → Inventory) (o : OrderMovement) (s : Inventory)
    {r : InventoryTransaction × Inventory}
    → restore_order_stock today commits o s ≡ ok r
    → restore_order_stock later commits' o r.1 ≡ ok r
unfolding restore_order_stock
restore_order_stock_once today later commits commits' o s h =
    Holds-again _ _ _ later commits' o (move_once-Holds _ _ _ today commits o s h)
