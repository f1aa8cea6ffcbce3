-- ===== src/Inventory/OrderStock/RoundTrip.antt =====
-- A restoration after a deduction, inventory/services.py: the stock is as before, and the ledger
-- keeps both rows.
use zuvi_web.Prelude.{
  ℕ, ◌+◌, ◌≤◌, ◌<◌, ◌≡◌, sym, ap, ◌∙◌, subst, false, some, [], ◌∷◌, ◌++◌, length, ◌==◌, arith, inl,
  inr, Bool-cases, All,
}
use zuvi_web.Prelude.Int.{pos, ◌+ℤ◌}
use zuvi_web.Prelude.Text.{Text, text_eq}
use zuvi_web.Prelude.Effect.{ok}
use zuvi_web.Catalog.{Product}
use zuvi_web.Inventory.Model.{
  InventoryTransactionType, stock_out, customer_return, transaction_type_direction,
  InventoryTransaction, Inventory, product_row, set_stock, stock_of,
}
use zuvi_web.Inventory.Movement.{
  validate_positive_quantity, require_reason, signed_delta, reference_taken, max_units,
  apply_stock_movement,
}
use zuvi_web.Inventory.Movement.Effects.{apply-owned, apply-Moved}
use zuvi_web.Inventory.Movement.Success.{apply-total}
use zuvi_web.Inventory.Ledger.{stock_of-set_self, stock_of-set_ne, stock_of-row}
use zuvi_web.Inventory.OrderStock.{
  require_order_reference, OrderMovement, order_movement, move_once, deduct_order_stock,
  restore_order_stock,
}
use zuvi_web.Inventory.OrderStock.Once.{row-reference, skips}
use zuvi_web.Inventory.OrderStock.Calls.{
  alone, once-moves, once-returns, row-set_self, row-fits, taken-append_ne, order-fields,
  restoring-IsPlain, restoring-reason,
}

-- `d` is a deduction and `u` a restoration of the same units of one product, under references `c`
-- and `e` that no row holds yet.
pub record IsReturn (s : Inventory) (d u : OrderMovement) (c e : Text) : Type 0 where
  pub same_product : u.product ≡ d.product
  pub same_store : u.store ≡ d.store
  pub same_quantity : u.quantity ≡ d.quantity
  pub deducts : require_order_reference d.reference ≡ ok c
  pub restores : require_order_reference u.reference ≡ ok e
  pub differ : text_eq c e ≡ false
  pub short : length e ≤ 100
  pub free_deduct : reference_taken c s.transactions ≡ false
  pub free_restore : reference_taken e s.transactions ≡ false
  pub fits : All (λ (q : Product). q.stock_quantity < max_units) s.products

pub went_out :
    (n old new : ℕ)
    → pos new ≡ pos old +ℤ signed_delta (transaction_type_direction stock_out) n
    → old ≡ new + n
unfolding ◌+ℤ◌ signed_delta transaction_type_direction
went_out n old new e = ground arith

pub comes_in :
    (n new : ℕ)
    → pos (new + n) ≡ pos new +ℤ signed_delta (transaction_type_direction customer_return) n
unfolding ◌+ℤ◌ signed_delta transaction_type_direction
comes_in n new = ground arith

module _ (today later : ℕ) (s : Inventory) (d u : OrderMovement) (c e : Text)
    (h : IsReturn s d u c e) (reason notes reason' notes' : Text) where
  -- The restoration, after the deduction has left `new` units.
  restored :
      (n : ℕ) (p : Product) (new : ℕ) (r : InventoryTransaction × Inventory)
      → validate_positive_quantity d.quantity ≡ ok n
      → product_row d.product s.products ≡ some p
      → p.store ≡ d.store
      → pos new ≡ pos p.stock_quantity +ℤ signed_delta (transaction_type_direction stock_out) n
      → r.1.products ≡ set_stock d.product new s.products
      → r.1.transactions ≡ s.transactions ++ r.0 ∷ []
      → r.0.reference ≡ c
      → (q : InventoryTransaction × Inventory) × (apply_stock_movement later
            (order_movement customer_return reason' notes' e u)
            r.1
          ≡ ok q)
        × (q.1.products ≡ set_stock u.product p.stock_quantity r.1.products)
  restored n p new r quantified found owned balance products rows named =
      let m = order_movement customer_return reason' notes' e u in
      let (mp, ms, mq, mt, mr) = order-fields customer_return reason' notes' e u in
      let back : p.stock_quantity ≡ new + n = went_out n p.stock_quantity new balance in
      let row : product_row d.product r.1.products ≡ some (record p { stock_quantity = new }) =
        ap (product_row d.product) products ∙ row-set_self d.product new s.products p found in
      let run =
        apply-total later m r.1 n (record p { stock_quantity = new }) p.stock_quantity
          (restoring-IsPlain reason' notes' e u)
          (ap validate_positive_quantity (mq ∙ h.same_quantity) ∙ quantified)
          (subst (λ (k : InventoryTransactionType). require_reason k m.reason ≡ ok tt) (sym mt)
            (restoring-reason m.reason))
          (ap (λ (k : ℕ). product_row k r.1.products) (mp ∙ h.same_product) ∙ row)
          (owned ∙ sym h.same_store ∙ sym ms)
          (ap pos back
            ∙ comes_in n new
            ∙ ap
                (λ (k : InventoryTransactionType).
                  pos new +ℤ signed_delta (transaction_type_direction k) n)
                (sym mt))
          (row-fits d.product s.products p h.fits found)
          (subst (λ (t : Text). length t ≤ 100) (sym mr) h.short)
          (ap (λ (t : Text). reference_taken t r.1.transactions) mr
            ∙ ap (reference_taken e) rows
            ∙ taken-append_ne e r.0 s.transactions h.free_restore
                (subst (λ (t : Text). text_eq t e ≡ false) (sym named) h.differ)) in
      (_, run, ap (λ (k : ℕ). set_stock k p.stock_quantity r.1.products) mp)

  same_stock :
      (pk new : ℕ) (p : Product) (t : Inventory)
      → product_row d.product s.products ≡ some p
      → t.products ≡ set_stock d.product new s.products
      → stock_of pk (set_stock u.product p.stock_quantity t.products) ≡ stock_of pk s.products
  same_stock pk new p t found e =
      let row : product_row d.product t.products ≡ some (record p { stock_quantity = new }) =
        ap (product_row d.product) e ∙ row-set_self d.product new s.products p found in
      ap (λ (k : ℕ). stock_of pk (set_stock k p.stock_quantity t.products)) h.same_product
      ∙ elim (Bool-cases (d.product == pk)) [
        | inl same ↦
            let at : d.product ≡ pk = ground arith in
            subst
              (λ (k : ℕ).
                stock_of k (set_stock d.product p.stock_quantity t.products)
                ≡ stock_of k s.products)
              at
              (stock_of-set_self d.product p.stock_quantity t.products
                  (record p { stock_quantity = new }) row
                ∙ sym (stock_of-row d.product s.products p found))
        | inr other ↦
            stock_of-set_ne d.product p.stock_quantity pk t.products other
            ∙ ap (stock_of pk) e
            ∙ stock_of-set_ne d.product new pk s.products other
      ]

  -- Both calls, over the common body.
  undone :
      {r : InventoryTransaction × Inventory}
      → move_once stock_out reason notes today alone d s ≡ ok r
      → (q : InventoryTransaction × Inventory) × (move_once customer_return reason' notes' later
            alone u r.1
          ≡ ok q)
        × ((pk : ℕ) → stock_of pk q.1.products ≡ stock_of pk s.products)
  undone {r} run =
      let m = order_movement stock_out reason notes c d in
      let (mp, ms, mq, mt, mr) = order-fields stock_out reason notes c d in
      let applied = once-moves stock_out reason notes today d s c h.deducts h.free_deduct run in
      let (n, p, quantified, found, moved) =
        apply-Moved today m s (skips stock_out reason notes c d) applied in
      let found' : product_row d.product s.products ≡ some p =
        ap (λ (k : ℕ). product_row k s.products) (sym mp) ∙ found in
      let products : r.1.products ≡ set_stock d.product moved.new s.products =
        moved.products ∙ ap (λ (k : ℕ). set_stock k moved.new s.products) mp in
      let named : r.0.reference ≡ c =
        ap (λ (t : InventoryTransaction). t.reference) moved.row
        ∙ row-reference stock_out reason notes d c moved.cost n p.stock_quantity moved.new in
      let (q, back, stock) =
        restored n p moved.new r (ap validate_positive_quantity (sym mq) ∙ quantified) found'
          (apply-owned today m s p found applied ∙ ms)
          (moved.balance
            ∙ ap
                (λ (k : InventoryTransactionType).
                  pos p.stock_quantity +ℤ signed_delta (transaction_type_direction k) n)
                mt)
          products moved.transactions named in
      let free : reference_taken e r.1.transactions ≡ false =
        ap (reference_taken e) moved.transactions
        ∙ taken-append_ne e r.0 s.transactions h.free_restore
            (subst (λ (t : Text). text_eq t e ≡ false) (sym named) h.differ) in
      (
        q,
        once-returns customer_return reason' notes' later u r.1 e h.restores free back,
        λ pk. ap (stock_of pk) stock ∙ same_stock pk moved.new p r.1 found' products,
      )

-- When a deduction has returned and a restoration is of the same units of the same product, with
-- order references that no row held and no other session between, then the restoration returns,
-- whatever the two days are, and every product has the stock it had before.
pub restore_undoes_deduct :
    (today later : ℕ) (s : Inventory) (d u : OrderMovement) (c e : Text)
    {r : InventoryTransaction × Inventory}
    → IsReturn s d u c e
    → deduct_order_stock today alone d s ≡ ok r
    → (q : InventoryTransaction × Inventory) × (restore_order_stock later alone u r.1 ≡ ok q)
      × ((pk : ℕ) → stock_of pk q.1.products ≡ stock_of pk s.products)
unfolding deduct_order_stock restore_order_stock
restore_undoes_deduct today later s d u c e h run = undone today later s d u c e h _ _ _ _ run
