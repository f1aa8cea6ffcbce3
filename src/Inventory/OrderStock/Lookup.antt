-- ===== src/Inventory/OrderStock/Lookup.antt =====
-- How the two services for order lines, inventory/services.py, find a row by its reference.
use zuvi_web.Prelude.{
  ℕ, ◌≡◌, refl, ap, ◌∙◌, true, false, some, List, [], ◌∷◌, ◌++◌, if◌then◌else◌, arith,
  find-append_new,
}
use zuvi_web.Prelude.Int.{pos}
use zuvi_web.Prelude.Text.{Text, text_eq, starts_with, strip, lstrip, rstrip, is_space, is_empty}
use zuvi_web.Prelude.Effect.{ok, running}
use zuvi_web.Decimal.{Decimal}
use zuvi_web.Inventory.Model.{InventoryTransactionType, InventoryTransaction, Inventory}
use zuvi_web.Inventory.Movement.{
  order_item_reference_prefix, quantize_quantity, validate_positive_quantity, is_order_reference,
  reference_taken,
}
use zuvi_web.Inventory.OrderStock.{
  find_transaction_by_reference, require_order_reference, OrderMovement,
  assert_existing_order_txn_matches,
}

-- A reference that `require_order_reference` lets through.
pub record IsReference (r : Text) : Type 0 where
  prefixed : starts_with order_item_reference_prefix r ≡ true

pub require-eq-ok :
    (r : Text) {cleaned : Text}
    → require_order_reference r ≡ ok cleaned
    → (cleaned ≡ strip r) × (starts_with order_item_reference_prefix cleaned ≡ true)
unfolding require_order_reference running
require-eq-ok r h = ground arith

-- The ledger holds the row `t`, under the reference of `o`, for the movement that `o` asks for.
pub record Holds (type : InventoryTransactionType) (o : OrderMovement)
    (r : InventoryTransaction × Inventory) : Type 0 where
  pub cleaned : Text
  pub required : require_order_reference o.reference ≡ ok cleaned
  pub found : find_transaction_by_reference cleaned r.1.transactions ≡ some r.0
  pub matched : assert_existing_order_txn_matches r.0 o type ≡ ok tt

pub lstrip_keeps : (c : ℕ) (s : Text) → is_space c ≡ false → lstrip (c ∷ s) ≡ c ∷ s
unfolding lstrip
lstrip_keeps c s h = ground arith

pub rstrip_keeps : (c : ℕ) (s : Text) → is_space c ≡ false → is_empty (rstrip (c ∷ s)) ≡ false
unfolding rstrip
rstrip_keeps c s h = go (rstrip s)
  where
    go :
        (t : Text)
        → is_empty (elim t [ [] ↦ if is_space c then [] else c ∷ [] | d ∷ r ↦ c ∷ d ∷ r ]) ≡ false
    go [] = ground arith
    go (d ∷ r) = refl

pub strip_keeps : (c : ℕ) (s : Text) → is_space c ≡ false → is_empty (strip (c ∷ s)) ≡ false
unfolding strip
strip_keeps c s h = ap (λ (t : Text). is_empty (rstrip t)) (lstrip_keeps c s h) ∙ rstrip_keeps c s h

pub nonempty-strip :
    (r : Text) → starts_with order_item_reference_prefix r ≡ true → is_empty (strip r) ≡ false
unfolding is_space
nonempty-strip [] h = cc
nonempty-strip (c ∷ s) h = strip_keeps c s (ground arith)

pub found_last :
    (r : Text) (ts : List InventoryTransaction) (t : InventoryTransaction)
    → starts_with order_item_reference_prefix r ≡ true
    → reference_taken r ts ≡ false
    → text_eq t.reference r ≡ true
    → find_transaction_by_reference r (ts ++ t ∷ []) ≡ some t
unfolding find_transaction_by_reference reference_taken is_order_reference
found_last r ts t h free held = ground (
  arith,
  nonempty-strip r h,
  find-append_new (λ (u : InventoryTransaction). text_eq u.reference r) ts t,
)

pub quantized :
    (x : Decimal) {n : ℕ} → validate_positive_quantity x ≡ ok n → quantize_quantity x ≡ pos n
unfolding validate_positive_quantity running
quantized x h = ground arith
