-- ===== src/Inventory/OrderStock/Calls.antt =====
-- The two services for order lines, inventory/services.py, where the reference is free.
use zuvi_web.Prelude.{
  ℕ, ◌<◌, ◌≡◌, ◌≢◌, refl, sym, ◌∙◌, true, false, none, some, List, [], ◌∷◌, ◌++◌, arith,
  find_absent, inl, inr, All, any-append,
}
use zuvi_web.Prelude.Text.{Text, text_eq, starts_with}
use zuvi_web.Prelude.Effect.{ok, running, except_integrity, except-eq-ok}
use zuvi_web.Catalog.{Product}
use zuvi_web.Inventory.Model.{
  InventoryTransactionType, customer_return, InventoryTransaction, Inventory, product_row,
  set_stock, reason_required,
}
use zuvi_web.Inventory.Movement.{
  order_item_reference_prefix, require_reason, is_order_reference, reference_taken, max_units,
  apply_stock_movement,
}
use zuvi_web.Inventory.Movement.Success.{IsPlain}
use zuvi_web.Inventory.OrderStock.{
  find_transaction_by_reference, require_order_reference, OrderMovement, order_movement, winner_row,
  move_new, move_unless, move_once,
}
use zuvi_web.Inventory.OrderStock.Lookup.{require-eq-ok}

abbrev pub alone : Inventory → Inventory
alone s = s

pub find-none :
    (r : Text) (ts : List InventoryTransaction)
    → starts_with order_item_reference_prefix r ≡ true
    → reference_taken r ts ≡ false
    → find_transaction_by_reference r ts ≡ none
unfolding find_transaction_by_reference reference_taken is_order_reference
find-none r ts h free =
    ground (arith, find_absent (λ (t : InventoryTransaction). text_eq t.reference r) ts)

module _ (type : InventoryTransactionType) (reason notes : Text) (today : ℕ) (o : OrderMovement)
    (s : Inventory) (c : Text) (required : require_order_reference o.reference ≡ ok c)
    (free : reference_taken c s.transactions ≡ false) where
  pub absent : find_transaction_by_reference c s.transactions ≡ none
  absent = find-none c s.transactions (require-eq-ok o.reference required).1 free

  -- With a free reference the call is the movement.
  pub once-eq-apply :
      move_once type reason notes today alone o s
      ≡ except_integrity
          (apply_stock_movement today (order_movement type reason notes c o))
          (winner_row c o type)
          s
  unfolding move_once move_unless move_new running
  once-eq-apply = ground (arith, required, absent)

  pub winner-none : {r : InventoryTransaction × Inventory} → winner_row c o type s ≢ ok r
  unfolding winner_row running
  winner-none h = ground (arith, absent)

  pub once-moves :
      {r : InventoryTransaction × Inventory}
      → move_once type reason notes today alone o s ≡ ok r
      → apply_stock_movement today (order_movement type reason notes c o) s ≡ ok r
  once-moves {r} h =
      elim (except-eq-ok (apply_stock_movement today (order_movement type reason notes c o))
        (winner_row c o type) s (sym once-eq-apply ∙ h)) [
          | inl moved ↦ moved
          | inr won ↦ absurd (winner-none won)
        ]

  pub once-returns :
      {r : InventoryTransaction × Inventory}
      → apply_stock_movement today (order_movement type reason notes c o) s ≡ ok r
      → move_once type reason notes today alone o s ≡ ok r
  unfolding except_integrity
  once-returns {r} h = once-eq-apply ∙ ground (arith, h)

pub row-set_self :
    (pk n : ℕ) (ps : List Product) (p : Product)
    → product_row pk ps ≡ some p
    → product_row pk (set_stock pk n ps) ≡ some (record p { stock_quantity = n })
row-set_self pk n [] p h = cc
row-set_self pk n (q ∷ ps) p h = ground (arith, row-set_self pk n ps p)

pub row-fits :
    (pk : ℕ) (ps : List Product) (p : Product)
    → All (λ (q : Product). q.stock_quantity < max_units) ps
    → product_row pk ps ≡ some p
    → p.stock_quantity < max_units
row-fits pk [] p all h = cc
row-fits pk (q ∷ ps) p all h = ground (arith, row-fits pk ps p all.1)

pub taken-append_ne :
    (r : Text) (t : InventoryTransaction) (ts : List InventoryTransaction)
    → reference_taken r ts ≡ false
    → text_eq t.reference r ≡ false
    → reference_taken r (ts ++ t ∷ []) ≡ false
unfolding reference_taken
taken-append_ne r t ts h k =
    ground (arith, any-append (λ (u : InventoryTransaction). text_eq u.reference r) ts (t ∷ []))

-- The parts of an order movement that the ledger reads.
module _ (type : InventoryTransactionType) (reason notes c : Text) (o : OrderMovement) where
  pub order-fields :
      let m = order_movement type reason notes c o in
      (m.product ≡ o.product)
      × (m.store ≡ o.store)
      × (m.quantity ≡ o.quantity)
      × (m.transaction_type ≡ type)
      × (m.reference ≡ c)
  unfolding order_movement
  order-fields = (refl, refl, refl, refl, refl)

pub restoring-IsPlain :
    (reason notes c : Text) (o : OrderMovement)
    → IsPlain (order_movement customer_return reason notes c o)
unfolding order_movement
restoring-IsPlain reason notes c o = record {
  no_cost = refl;
  no_date = refl;
  no_entry = refl;
  moves = refl;
  later = refl;
}

pub restoring-reason : (text : Text) → require_reason customer_return text ≡ ok tt
unfolding require_reason reason_required running
restoring-reason text = refl
