-- ===== src/Orders/Checkout/Graph.antt =====
-- The ledger and the lines that a cancellation finds after a checkout, orders/checkout.py.
use zuvi_web.Prelude.{
  ℕ, ◌≤◌, ◌<◌, ◌≡◌, refl, sym, ap, ◌∙◌, subst, true, false, List, [], ◌∷◌, ◌++◌, any, map, sum_of,
  All, All-append, ◌==◌, arith, Bool-cases, inl, inr,
}
use zuvi_web.Prelude.Sort.{Group, members}
use zuvi_web.Prelude.Text.{Text, text_eq, text_eq→eq}
use zuvi_web.Prelude.Effect.{ok}
use zuvi_web.Inventory.Model.{Inventory}
use zuvi_web.Inventory.Movement.{reference_taken}
use zuvi_web.Inventory.OrderStock.{order_item_deduct_reference, order_item_restore_reference}
use zuvi_web.Inventory.OrderStock.References.{deduct-ne-restore_reference}
use zuvi_web.Inventory.OrderStock.Calls.{taken-append_ne}
use zuvi_web.Orders.Model.{OrderItem}
use zuvi_web.Orders.Cancellation.Units.{AllApart, IsFree, units_due}
use zuvi_web.Shop.{Shop, PlacedOrder, PlacedStoreOrder, PlacedItem}
use zuvi_web.Orders.Validation.{World, Line}
use zuvi_web.Orders.Checkout.{Fulfillment}
use zuvi_web.Orders.Checkout.StoreRows.{item_row, insert_store_order}
use zuvi_web.Orders.Checkout.Placement.{first_store_status, place_store_orders}
use zuvi_web.Orders.Checkout.Rows.{
  LinePlaced, StoreOrderPlaced, place_lines-keeps, place_store_orders-keeps,
}
use zuvi_web.Orders.Checkout.Balance.{Balanced, InKeys, ApartItems, item_due}
use zuvi_web.Orders.Checkout.Units.{line_deduction-Deducted, Unused-later}
use zuvi_web.Orders.Checkout.Stock.{UnusedIn}
use zuvi_web.Orders.Checkout.Begins.{item_of, items_of}

-- The ledger holds no return of the order lines from the key `base` on.
abbrev pub RestoresFree : (base : ℕ) → Inventory → Type 0
RestoresFree base s =
    (k : ℕ) → base ≤ k → reference_taken (order_item_restore_reference k) s.transactions ≡ false

abbrev pub Ready : ℕ → Shop → Type 0
Ready base s = UnusedIn s × RestoresFree base s.inventory

pub deduct-apart :
    (j k : ℕ) → text_eq (order_item_deduct_reference j) (order_item_restore_reference k) ≡ false
deduct-apart j k =
    elim (Bool-cases (text_eq (order_item_deduct_reference j) (order_item_restore_reference k))) [
      | inr apart ↦ apart
      | inl same ↦ absurd (
          deduct-ne-restore_reference j k
            (text_eq→eq (order_item_deduct_reference j) (order_item_restore_reference k) same))
    ]

module _ (w : World) (o : PlacedOrder) (base : ℕ) where
  pub line-Ready :
      (so : PlacedStoreOrder) (l : Line) (s t : Shop)
      → LinePlaced w o so l s t
      → Ready base s
      → Ready base t
  unfolding item_row
  line-Ready so l s t v (unused, free) =
      let k = s.next_order_item in
      let d =
        line_deduction-Deducted w o l k s.inventory v.stock v.row (unused k (omega arith))
          v.deducted in
      subst (Ready base) (sym v.result) (
        Unused-later k l.product.pk l.quantity s.inventory v.row v.stock unused d,
        λ j above.
            ap (reference_taken (order_item_restore_reference j)) d.transactions
            ∙ taken-append_ne (order_item_restore_reference j) v.row s.inventory.transactions
                (free j above)
                (ap (λ (u : Text). text_eq u (order_item_restore_reference j)) d.named
                  ∙ deduct-apart k j),
      )

  pub store-Ready :
      (f : Fulfillment) (g : Group Line) (s t : Shop)
      → StoreOrderPlaced w o f g (Ready base) s t
      → Ready base t
  unfolding insert_store_order first_store_status
  store-Ready f g s t v =
      let start : Ready base (first_store_status w v.row v.after) =
        subst (λ (q : PlacedStoreOrder × Shop). Ready base (first_store_status w v.row q.1))
          v.inserted v.kept in
      place_lines-keeps w o v.row (Ready base) (λ l q q' placed. line-Ready v.row l q q' placed)
        (members g) (first_store_status w v.row v.after) v.filled start

  pub stores-Ready :
      (f : Fulfillment)
      → ((k : ℕ) (s : Shop) → w.before_store_order k s ≡ s)
      → (gs : List (Group Line)) (s : Shop) {r : Unit {0} × Shop}
      → place_store_orders w o f gs s ≡ ok r
      → Ready base s
      → Ready base r.1
  stores-Ready f alone gs s h ready =
      place_store_orders-keeps w o f (Ready base) (λ k q p. subst (Ready base) (sym (alone k q)) p)
        (λ g q q' v. store-Ready f g q q' v) gs s h ready

-- The lines that an order graph finds are those that were written.
pub found-item :
    (k : ℕ) (i : PlacedItem) (news : List PlacedStoreOrder)
    → i.item.store_order < k
    → All (λ (so : PlacedStoreOrder). k ≤ so.row.pk) news
    → any (λ (so : PlacedStoreOrder). so.row.pk == i.item.store_order) news ≡ false
found-item k i [] below above = refl
found-item k i (so ∷ news) below above = ground (arith, above.0, found-item k i news below above.1)

pub old-items :
    (k : ℕ) (news : List PlacedStoreOrder) (olds items : List PlacedItem)
    → All (λ (i : PlacedItem). i.item.store_order < k) olds
    → All (λ (so : PlacedStoreOrder). k ≤ so.row.pk) news
    → items_of news (olds ++ items) ≡ items_of news items
old-items k news [] items below above = refl
old-items k news (i ∷ olds) items below above =
    ground (arith, found-item k i news below.0 above, old-items k news olds items below.1 above)

abbrev pub Among : List PlacedStoreOrder → PlacedItem → Type 0
Among rows i = any (λ (so : PlacedStoreOrder). so.row.pk == i.item.store_order) rows ≡ true

pub Among-block :
    (so : PlacedStoreOrder) (rows : List PlacedStoreOrder) (block : List PlacedItem)
    → All (λ (i : PlacedItem). i.item.store_order ≡ so.row.pk) block
    → All (Among (so ∷ rows)) block
Among-block so rows [] all = tt
Among-block so rows (i ∷ block) all = (ground (arith, all.0), Among-block so rows block all.1)

pub Among-later :
    (so : PlacedStoreOrder) (rows : List PlacedStoreOrder) (items : List PlacedItem)
    → All (Among rows) items
    → All (Among (so ∷ rows)) items
Among-later so rows [] all = tt
Among-later so rows (i ∷ items) all = (ground (arith, all.0), Among-later so rows items all.1)

pub Balanced-Among :
    (news : List PlacedStoreOrder) (items : List PlacedItem)
    → Balanced news items
    → All (Among news) items
Balanced-Among [] items h = subst (All (Among [])) (sym h) tt
Balanced-Among (so ∷ news) items (block, rest, e, mine, total, more) =
    subst (All (Among (so ∷ news))) (sym e) (
      All-append (Among (so ∷ news)) block rest (Among-block so news block mine)
        (Among-later so news rest (Balanced-Among news rest more)))

pub all-items :
    (news : List PlacedStoreOrder) (items : List PlacedItem)
    → All (Among news) items
    → items_of news items ≡ items
all-items news [] all = refl
all-items news (i ∷ items) all = ground (arith, all.0, all-items news items all.1)

pub keys-map :
    (k : ℕ) (items : List PlacedItem)
    → any (λ (j : OrderItem). j.pk == k) (map item_of items)
      ≡ any (λ (j : PlacedItem). j.item.pk == k) items
keys-map k [] = refl
keys-map k (i ∷ items) = ground (arith, keys-map k items)

pub apart-map : (items : List PlacedItem) → ApartItems items → AllApart (map item_of items)
apart-map [] all = tt
apart-map (i ∷ items) all = (keys-map i.item.pk items ∙ all.0, apart-map items all.1)

pub IsFree-map :
    (base high : ℕ) (s : Inventory) (items : List PlacedItem)
    → RestoresFree base s
    → All (InKeys base high) items
    → All (λ (i : OrderItem). i.stock_restored ≡ false → IsFree i s) (map item_of items)
IsFree-map base high s [] free all = tt
IsFree-map base high s (i ∷ items) free all =
    (λ waits. free i.item.pk all.0.0, IsFree-map base high s items free all.1)

pub due-map :
    (pk : ℕ) (items : List PlacedItem)
    → sum_of (units_due pk) (map item_of items) ≡ sum_of (item_due pk) items
due-map pk [] = refl
due-map pk (i ∷ items) = omega (arith, due-map pk items)
