-- ===== src/Orders/Cancellation/Units.antt =====
-- The stock of one line that comes back, orders/cancellation.py and inventory/services.py.
use zuvi_web.Prelude.{
  ℕ, ◌+◌, ◌^◌, ◌≡◌, refl, sym, ap, ◌∙◌, subst, false, not, ◌&&◌, some, List, [], ◌∷◌, ◌++◌, any,
  All, ◌==◌, if◌then◌else◌, arith, Bool-cases, inl, inr,
}
use zuvi_web.Prelude.Int.{pos, ◌+ℤ◌}
use zuvi_web.Prelude.Text.{
  Text, text, strip, lstrip, rstrip, is_space, decimal, text_eq, text_eq→eq, starts_with,
}
use zuvi_web.Prelude.Effect.{ok, running, raise_when, validation, reference}
use zuvi_web.Decimal.{Decimal, of_thousandths}
use zuvi_web.Decimal.Rounding.{round_half_even-mul}
use zuvi_web.Catalog.{Product}
use zuvi_web.Inventory.Model.{
  Inventory, InventoryTransaction, product_row, set_stock, stock_of, customer_return,
  InventoryTransactionType, transaction_type_direction,
}
use zuvi_web.Inventory.Movement.{
  order_item_reference_prefix, quantize_quantity, validate_positive_quantity, reference_taken,
  signed_delta,
}
use zuvi_web.Inventory.Movement.Effects.{apply-Moved}
use zuvi_web.Inventory.Ledger.{stock_of-set_self, stock_of-set_ne, stock_of-row}
use zuvi_web.Inventory.OrderStock.{
  order_item_restore_reference, restore_order_stock, require_order_reference, order_movement,
  OrderMovement, move_once,
}
use zuvi_web.Inventory.OrderStock.Lookup.{quantized}
use zuvi_web.Inventory.OrderStock.Once.{row-reference, skips}
use zuvi_web.Inventory.OrderStock.References.{restore_reference-injective}
use zuvi_web.Inventory.OrderStock.Calls.{once-moves, taken-append_ne, order-fields}
use zuvi_web.Orders.Model.{OrderItem, Call}
use zuvi_web.Orders.Lines.{restoration}

pub rstrip-append :
    (xs : Text) (c : ℕ) (t : Text) → rstrip (c ∷ t) ≡ c ∷ t → rstrip (xs ++ c ∷ t) ≡ xs ++ c ∷ t
unfolding rstrip
rstrip-append [] c t h = h
rstrip-append (x ∷ []) c t h = ground (arith, h)
rstrip-append (x ∷ y ∷ xs) c t h = ground (arith, rstrip-append (y ∷ xs) c t h)

-- A reference is as it was composed.
pub strip_restore_reference :
    (pk : ℕ) → strip (order_item_restore_reference pk) ≡ order_item_restore_reference pk
unfolding strip lstrip is_space order_item_restore_reference rstrip
strip_restore_reference pk =
    rstrip-append (order_item_reference_prefix ++ decimal pk) 58 (text "restore") refl

pub required_restore :
    (pk : ℕ)
    → require_order_reference (order_item_restore_reference pk)
      ≡ ok (order_item_restore_reference pk)
unfolding require_order_reference order_item_restore_reference running
required_restore pk =
    ap
      (λ (t : Text).
        raise_when (not (starts_with order_item_reference_prefix t)) (validation reference) (ok t))
      (strip_restore_reference pk)

pub quantize_thousandths : (n : ℕ) → quantize_quantity (of_thousandths n) ≡ pos n
unfolding quantize_quantity
quantize_thousandths n = ap pos (round_half_even-mul n (10 ^ 3) (omega arith))

-- The stock that comes back to a product with these lines.
abbrev pub units_due : ℕ → OrderItem → ℕ
units_due pk i = if not i.stock_restored && i.product == pk then i.quantity else 0

abbrev pub AllApart : List OrderItem → Type 0
AllApart [] = Unit
AllApart (i ∷ items) = (any (λ (j : OrderItem). j.pk == i.pk) items ≡ false) × AllApart items

abbrev pub IsFree : OrderItem → Inventory → Type 0
IsFree i s = reference_taken (order_item_restore_reference i.pk) s.transactions ≡ false

pub same_units : (q n : ℕ) → validate_positive_quantity (of_thousandths q) ≡ ok n → q ≡ n
same_units q n h =
    let e : pos q ≡ pos n = sym (quantize_thousandths q) ∙ quantized (of_thousandths q) h in cc

pub came_back :
    (old n new : ℕ)
    → pos new ≡ pos old +ℤ signed_delta (transaction_type_direction customer_return) n
    → new ≡ old + n
unfolding ◌+ℤ◌ signed_delta transaction_type_direction
came_back old n new h = ground arith

-- What the return of `q` units of the product `pk` under the reference `ref` has done.
abbrev pub Returned : (pk q : ℕ) → Text → Inventory → InventoryTransaction → Inventory → Type 0
Returned pk q ref s row t =
    (p : Product) × (product_row pk s.products ≡ some p)
    × (t.products ≡ set_stock pk (p.stock_quantity + q) s.products)
    × (t.transactions ≡ s.transactions ++ row ∷ [])
    × (row.reference ≡ ref)

module _ (reason notes : Text) (today : ℕ) (s t : Inventory) (row : InventoryTransaction)
    (o : OrderMovement) (q : ℕ) where
  pub moved_back :
      (ref : Text)
      → require_order_reference o.reference ≡ ok ref
      → o.quantity ≡ of_thousandths q
      → reference_taken ref s.transactions ≡ false
      → move_once customer_return reason notes today (λ u. u) o s ≡ ok (row, t)
      → Returned o.product q ref s row t
  moved_back ref required units free h =
      let m = order_movement customer_return reason notes ref o in
      let (mp, ms, mq, mt, mr) = order-fields customer_return reason notes ref o in
      let applied = once-moves customer_return reason notes today o s ref required free h in
      let (n, p, valid, found, moved) =
        apply-Moved today m s (skips customer_return reason notes ref o) applied in
      let same : q ≡ n =
        same_units q n
          (subst (λ (x : Decimal). validate_positive_quantity x ≡ ok n) (mq ∙ units) valid) in
      let balance : moved.new ≡ p.stock_quantity + n = came_back p.stock_quantity n moved.new (
        subst
          (λ (k : InventoryTransactionType).
            pos moved.new ≡ pos p.stock_quantity +ℤ signed_delta (transaction_type_direction k) n)
          mt moved.balance) in
      let new : moved.new ≡ p.stock_quantity + q =
        balance ∙ ap (λ (k : ℕ). p.stock_quantity + k) (sym same) in
      (
        p,
        ap (λ (k : ℕ). product_row k s.products) (sym mp) ∙ found,
        moved.products
            ∙ ap (λ (k : ℕ). set_stock k moved.new s.products) mp
            ∙ ap (λ (k : ℕ). set_stock o.product k s.products) new,
        moved.transactions,
        ap (λ (u : InventoryTransaction). u.reference) moved.row
            ∙ row-reference customer_return reason notes o ref moved.cost n p.stock_quantity
                moved.new,
      )

pub restoration_moves :
    (c : Call) (given : Text) (i : OrderItem) (store : ℕ) (s t : Inventory)
    (row : InventoryTransaction)
    → reference_taken (order_item_restore_reference i.pk) s.transactions ≡ false
    → restore_order_stock c.today (λ u. u) (restoration c given store i) s ≡ ok (row, t)
    → Returned i.product i.quantity (order_item_restore_reference i.pk) s row t
unfolding restore_order_stock restoration
restoration_moves c given i store s t row free h =
    moved_back _ _ c.today s t row (restoration c given store i) i.quantity
      (order_item_restore_reference i.pk) (required_restore i.pk) refl free h

-- Stock after a return.
pub returned-stock_of :
    (pk : ℕ) (i : OrderItem) (n : ℕ) (s t : Inventory) (p : Product)
    → product_row i.product s.products ≡ some p
    → t.products ≡ set_stock i.product (p.stock_quantity + i.quantity) s.products
    → stock_of pk s.products ≡ some n
    → stock_of pk t.products ≡ some (n + (if i.product == pk then i.quantity else 0))
returned-stock_of pk i n s t p found e known = elim (Bool-cases (i.product == pk)) [
  | inl same ↦
      let at : i.product ≡ pk = ground arith in
      let old : some n ≡ some p.stock_quantity =
        sym known
        ∙ ap (λ (k : ℕ). stock_of k s.products) (sym at)
        ∙ stock_of-row i.product s.products p found in
      let now : stock_of pk t.products ≡ some (p.stock_quantity + i.quantity) =
        ap (stock_of pk) e
        ∙ ap
            (λ (k : ℕ). stock_of k (set_stock i.product (p.stock_quantity + i.quantity) s.products))
            (sym at)
        ∙ stock_of-set_self i.product (p.stock_quantity + i.quantity) s.products p found in
      ground (arith, same, old, now)
  | inr other ↦
      let now : stock_of pk t.products ≡ stock_of pk s.products =
        ap (stock_of pk) e
        ∙ stock_of-set_ne i.product (p.stock_quantity + i.quantity) pk s.products other in
      ground (arith, other, now, known)
]

-- The lines have different keys, and no line that is due has its return in the ledger.
pub record Due (items : List OrderItem) (s : Inventory) : Type 0 where
  pub distinct : AllApart items
  pub free : All (λ (i : OrderItem). i.stock_restored ≡ false → IsFree i s) items

pub apart-text :
    (i j : OrderItem)
    → (j.pk == i.pk) ≡ false
    → text_eq (order_item_restore_reference i.pk) (order_item_restore_reference j.pk) ≡ false
apart-text i j h =
    elim (Bool-cases
      (text_eq (order_item_restore_reference i.pk) (order_item_restore_reference j.pk))) [
        | inr differ ↦ differ
        | inl same ↦
            let e : i.pk ≡ j.pk = restore_reference-injective i.pk j.pk (
              text_eq→eq (order_item_restore_reference i.pk) (order_item_restore_reference j.pk)
                same) in
            absurd (ground (arith, e))
      ]

pub IsFree-later :
    (i : OrderItem) (items : List OrderItem) (s t : Inventory) (row : InventoryTransaction)
    → any (λ (j : OrderItem). j.pk == i.pk) items ≡ false
    → t.transactions ≡ s.transactions ++ row ∷ []
    → row.reference ≡ order_item_restore_reference i.pk
    → All (λ (j : OrderItem). j.stock_restored ≡ false → IsFree j s) items
    → All (λ (j : OrderItem). j.stock_restored ≡ false → IsFree j t) items
IsFree-later i [] s t row apart e named all = tt
IsFree-later i (j ∷ items) s t row apart e named all = (
  λ waits.
      ap (reference_taken (order_item_restore_reference j.pk)) e
      ∙ taken-append_ne (order_item_restore_reference j.pk) row s.transactions (all.0 waits) (
          ap (λ (u : Text). text_eq u (order_item_restore_reference j.pk)) named
          ∙ apart-text i j (ground (arith, apart))),
  IsFree-later i items s t row (ground (arith, apart)) e named all.1,
)
