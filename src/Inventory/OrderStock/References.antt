-- ===== src/Inventory/OrderStock/References.antt =====
-- The references of order movements, inventory/services.py: no two movements share one.
use mathlib.Core.List.{append_cancel_left, append_cancel_right}
use zuvi_web.Prelude.{ℕ, ◌≡◌, ◌≢◌, sym, ap, ◌∙◌, [], ◌∷◌, ◌++◌, refl, arith}
use zuvi_web.Prelude.Text.{Text, text, decimal, decimal-injective}
use zuvi_web.Inventory.Movement.{order_item_reference_prefix}
use zuvi_web.Inventory.OrderStock.{order_item_deduct_reference, order_item_restore_reference}

same_pk :
    (i j : ℕ) (suffix : Text)
    → order_item_reference_prefix ++ (decimal i ++ suffix)
      ≡ order_item_reference_prefix ++ (decimal j ++ suffix)
    → i ≡ j
same_pk i j suffix e = decimal-injective i j (
    append_cancel_right (decimal i) (decimal j) suffix (
      append_cancel_left order_item_reference_prefix (decimal i ++ suffix) (decimal j ++ suffix) e))

-- Distinct order items have distinct deduction references.
pub deduct_reference-injective :
    (i j : ℕ) → order_item_deduct_reference i ≡ order_item_deduct_reference j → i ≡ j
unfolding order_item_deduct_reference
deduct_reference-injective i j e = same_pk i j (text ":deduct") e

pub restore_reference-injective :
    (i j : ℕ) → order_item_restore_reference i ≡ order_item_restore_reference j → i ≡ j
unfolding order_item_restore_reference
restore_reference-injective i j e = same_pk i j (text ":restore") e

abbrev last_of : ℕ → Text → ℕ
last_of d [] = d
last_of d (c ∷ s) = last_of c s

last_of-append : (d c : ℕ) (xs ys : Text) → last_of d (xs ++ c ∷ ys) ≡ last_of c ys
last_of-append d c [] ys = refl
last_of-append d c (x ∷ xs) ys = last_of-append x c xs ys

pub deduct-ne-restore_reference :
    (i j : ℕ) → order_item_deduct_reference i ≢ order_item_restore_reference j
unfolding order_item_deduct_reference order_item_restore_reference
deduct-ne-restore_reference i j e =
    let rest =
      append_cancel_left order_item_reference_prefix (decimal i ++ text ":deduct")
        (decimal j ++ text ":restore") e in
    let ends : ◌≡◌ {A = ℕ} b't' b'e' =
      sym (last_of-append 0 b':' (decimal i) (text "deduct"))
      ∙ ap (last_of 0) rest
      ∙ last_of-append 0 b':' (decimal j) (text "restore") in
    absurd (omega arith)

-- Each order item has one deduction and one restoration reference, and no reference serves two
-- order items or both directions.
pub order_references_distinct :
    (i j : ℕ)
    → (order_item_deduct_reference i ≡ order_item_deduct_reference j → i ≡ j)
      × (order_item_restore_reference i ≡ order_item_restore_reference j → i ≡ j)
      × (order_item_deduct_reference i ≢ order_item_restore_reference j)
order_references_distinct i j = (
  deduct_reference-injective i j,
  restore_reference-injective i j,
  deduct-ne-restore_reference i j,
)
