-- ===== src/Orders/Checkout/Units.antt =====
-- The stock of one line that goes out at checkout, orders/checkout.py and inventory/services.py.
use zuvi_web.Prelude.{
  ℕ, ◌+◌, ◌≤◌, ◌≡◌, refl, sym, ap, ◌∙◌, subst, false, not, some, [], ◌∷◌, ◌++◌, ◌==◌, if◌then◌else◌,
  arith, Bool-cases, inl, inr,
}
use zuvi_web.Prelude.Int.{pos, ◌+ℤ◌}
use zuvi_web.Prelude.Text.{
  Text, text, strip, lstrip, is_space, rstrip, decimal, text_eq, text_eq→eq, starts_with,
}
use zuvi_web.Prelude.Effect.{ok, running, raise_when, validation, reference}
use zuvi_web.Decimal.{Decimal, of_thousandths}
use zuvi_web.Catalog.{Product}
use zuvi_web.Inventory.Model.{
  Inventory, InventoryTransaction, product_row, set_stock, stock_of, stock_out,
  InventoryTransactionType, transaction_type_direction,
}
use zuvi_web.Inventory.Movement.{
  order_item_reference_prefix, validate_positive_quantity, reference_taken, signed_delta,
}
use zuvi_web.Inventory.Movement.Effects.{apply-Moved}
use zuvi_web.Inventory.Ledger.{stock_of-set_self, stock_of-set_ne, stock_of-row}
use zuvi_web.Inventory.OrderStock.{
  order_item_deduct_reference, deduct_order_stock, require_order_reference, order_movement,
  OrderMovement, move_once,
}
use zuvi_web.Inventory.OrderStock.Once.{row-reference, skips}
use zuvi_web.Inventory.OrderStock.References.{deduct_reference-injective}
use zuvi_web.Inventory.OrderStock.Calls.{once-moves, taken-append_ne, order-fields}
use zuvi_web.Inventory.OrderStock.RoundTrip.{went_out}
use zuvi_web.Orders.Cancellation.Units.{rstrip-append, same_units}
use zuvi_web.Shop.{PlacedOrder}
use zuvi_web.Orders.Validation.{World, Line}
use zuvi_web.Orders.Checkout.StoreRows.{line_deduction}

strip_deduct_reference :
    (pk : ℕ) → strip (order_item_deduct_reference pk) ≡ order_item_deduct_reference pk
unfolding strip lstrip is_space order_item_deduct_reference rstrip
strip_deduct_reference pk =
    rstrip-append (order_item_reference_prefix ++ decimal pk) 58 (text "deduct") refl

required_deduct :
    (pk : ℕ)
    → require_order_reference (order_item_deduct_reference pk) ≡ ok (order_item_deduct_reference pk)
unfolding require_order_reference order_item_deduct_reference running
required_deduct pk =
    ap
      (λ (t : Text).
        raise_when (not (starts_with order_item_reference_prefix t)) (validation reference) (ok t))
      (strip_deduct_reference pk)

-- What the deduction of `q` units of the product `pk` under the reference `ref` has done.
pub record Deducted (pk q : ℕ) (ref : Text) (s : Inventory) (row : InventoryTransaction)
    (t : Inventory) : Type 0 where
  pub owner : Product
  pub left : ℕ
  pub found : product_row pk s.products ≡ some owner
  pub enough : owner.stock_quantity ≡ left + q
  pub products : t.products ≡ set_stock pk left s.products
  pub transactions : t.transactions ≡ s.transactions ++ row ∷ []
  pub named : row.reference ≡ ref

module _ (reason notes : Text) (today : ℕ) (s t : Inventory) (row : InventoryTransaction)
    (o : OrderMovement) (q : ℕ) where
  moved_out :
      (ref : Text)
      → require_order_reference o.reference ≡ ok ref
      → o.quantity ≡ of_thousandths q
      → reference_taken ref s.transactions ≡ false
      → move_once stock_out reason notes today (λ u. u) o s ≡ ok (row, t)
      → Deducted o.product q ref s row t
  moved_out ref required units free h =
      let m = order_movement stock_out reason notes ref o in
      let (mp, ms, mq, mt, mr) = order-fields stock_out reason notes ref o in
      let applied = once-moves stock_out reason notes today o s ref required free h in
      let (n, p, valid, found, moved) =
        apply-Moved today m s (skips stock_out reason notes ref o) applied in
      let same : q ≡ n =
        same_units q n
          (subst (λ (x : Decimal). validate_positive_quantity x ≡ ok n) (mq ∙ units) valid) in
      let balance : p.stock_quantity ≡ moved.new + n = went_out n p.stock_quantity moved.new (
        subst
          (λ (k : InventoryTransactionType).
            pos moved.new ≡ pos p.stock_quantity +ℤ signed_delta (transaction_type_direction k) n)
          mt moved.balance) in
      record {
        owner = p;
        left = moved.new;
        found = ap (λ (k : ℕ). product_row k s.products) (sym mp) ∙ found;
        enough = balance ∙ ap (λ (k : ℕ). moved.new + k) (sym same);
        products = moved.products ∙ ap (λ (k : ℕ). set_stock k moved.new s.products) mp;
        transactions = moved.transactions;
        named =
            ap (λ (u : InventoryTransaction). u.reference) moved.row
            ∙ row-reference stock_out reason notes o ref moved.cost n p.stock_quantity moved.new;
      }

pub line_deduction-Deducted :
    (w : World) (o : PlacedOrder) (l : Line) (pk : ℕ) (s t : Inventory) (row : InventoryTransaction)
    → reference_taken (order_item_deduct_reference pk) s.transactions ≡ false
    → deduct_order_stock w.call.today (λ u. u) (line_deduction w o l pk) s ≡ ok (row, t)
    → Deducted l.product.pk l.quantity (order_item_deduct_reference pk) s row t
unfolding deduct_order_stock line_deduction
line_deduction-Deducted w o l pk s t row free h =
    moved_out _ _ w.call.today s t row (line_deduction w o l pk) l.quantity
      (order_item_deduct_reference pk) (required_deduct pk) refl free h

-- From `s` to `t`, `n` units of the product `pk` went out.
abbrev pub Sold : (pk n : ℕ) → Inventory → Inventory → Type 0
Sold pk n s t =
    (v : ℕ)
    → stock_of pk s.products ≡ some v
    → (left : ℕ) × (stock_of pk t.products ≡ some left) × (v ≡ left + n)

pub Sold-add :
    (pk m n : ℕ) (s t u : Inventory) → Sold pk m s t → Sold pk n t u → Sold pk (m + n) s u
Sold-add pk m n s t u first rest v known =
    let (left, now, e) = first v known in
    let (left', later, e') = rest left now in (left', later, omega (arith, e, e'))

pub Deducted-Sold :
    (pk k q : ℕ) (ref : Text) (s : Inventory) (row : InventoryTransaction) (t : Inventory)
    → Deducted k q ref s row t
    → Sold pk (if k == pk then q else 0) s t
Deducted-Sold pk k q ref s row t d v known = elim (Bool-cases (k == pk)) [
  | inl same ↦
      let at : k ≡ pk = ground arith in
      let old : some v ≡ some d.owner.stock_quantity =
        sym known
        ∙ ap (λ (j : ℕ). stock_of j s.products) (sym at)
        ∙ stock_of-row k s.products d.owner d.found in
      let was : v ≡ d.owner.stock_quantity = cc in
      (
        d.left,
        ap (stock_of pk) d.products
            ∙ ap (λ (j : ℕ). stock_of j (set_stock k d.left s.products)) (sym at)
            ∙ stock_of-set_self k d.left s.products d.owner d.found,
        was ∙ d.enough ∙ rw same refl,
      )
  | inr other ↦ (
    v,
    ap (stock_of pk) d.products ∙ stock_of-set_ne k d.left pk s.products other ∙ known,
    rw other (omega arith),
  )
]

-- No row of the ledger is under the reference of an order line to come.
abbrev pub Unused : ℕ → Inventory → Type 0
Unused next s =
    (k : ℕ) → next ≤ k → reference_taken (order_item_deduct_reference k) s.transactions ≡ false

text-apart :
    (j k : ℕ)
    → (j ≡ k → ⊥)
    → text_eq (order_item_deduct_reference j) (order_item_deduct_reference k) ≡ false
text-apart j k differ =
    elim (Bool-cases (text_eq (order_item_deduct_reference j) (order_item_deduct_reference k))) [
      | inr apart ↦ apart
      | inl same ↦ absurd (
          differ (
            deduct_reference-injective j k
              (text_eq→eq (order_item_deduct_reference j) (order_item_deduct_reference k) same)))
    ]

pub Unused-later :
    (next pk q : ℕ) (s : Inventory) (row : InventoryTransaction) (t : Inventory)
    → Unused next s
    → Deducted pk q (order_item_deduct_reference next) s row t
    → Unused (next + 1) t
Unused-later next pk q s row t unused d k above =
    ap (reference_taken (order_item_deduct_reference k)) d.transactions
    ∙ taken-append_ne (order_item_deduct_reference k) row s.transactions (unused k (omega arith)) (
        ap (λ (u : Text). text_eq u (order_item_deduct_reference k)) d.named
        ∙ text-apart next k (λ e. omega (arith, e)))
