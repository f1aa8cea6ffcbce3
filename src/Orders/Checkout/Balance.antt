-- ===== src/Orders/Checkout/Balance.antt =====
-- Lists of store orders and lines that fit together, orders/checkout.py.
use mathlib.Core.List.{append_assoc, append-nil}
use zuvi_web.Prelude.{
  ℕ, ◌≤◌, ◌<◌, ◌≡◌, refl, sym, ap, ◌∙◌, any, if◌then◌else◌, false, List, [], ◌∷◌, ◌++◌, arith,
  sum_of, All, any-append, ◌==◌,
}
use zuvi_web.Orders.Cancellation.Units.{units_due}
use zuvi_web.Shop.{PlacedStoreOrder, PlacedItem}
use zuvi_web.Orders.Validation.{Line}

abbrev pub item_total : PlacedItem → ℕ
item_total i = i.line_total

abbrev pub store_subtotal : PlacedStoreOrder → ℕ
store_subtotal so = so.row.items_subtotal

abbrev pub line_total_of : Line → ℕ
line_total_of l = l.line_total

-- The lines of the store orders one after the other, and each store order's amount is the sum of its
-- lines.
abbrev pub Balanced : List PlacedStoreOrder → List PlacedItem → Type 0
Balanced [] items = items ≡ []
Balanced (so ∷ sos) items =
    (block : List PlacedItem) × (rest : List PlacedItem) × (items ≡ block ++ rest)
    × All (λ (i : PlacedItem). i.item.store_order ≡ so.row.pk) block
    × (sum_of item_total block ≡ store_subtotal so)
    × Balanced sos rest

pub Balanced-append :
    (so : PlacedStoreOrder) (block : List PlacedItem)
    → All (λ (i : PlacedItem). i.item.store_order ≡ so.row.pk) block
    → sum_of item_total block ≡ store_subtotal so
    → (sos : List PlacedStoreOrder) (items : List PlacedItem) → Balanced sos items
    → Balanced (sos ++ so ∷ []) (items ++ block)
Balanced-append so block mine total [] items h = (
  block,
  [],
  ap (λ (l : List PlacedItem). l ++ block) h ∙ sym (append-nil block),
  mine,
  total,
  refl,
)
Balanced-append so block mine total (q ∷ sos) items (first, rest, e, theirs, sum, more) = (
  first,
  rest ++ block,
  ap (λ (l : List PlacedItem). l ++ block) e ∙ append_assoc first rest block,
  theirs,
  sum,
  Balanced-append so block mine total sos rest more,
)

-- The units of a product that a line of checkout and a line of an order stand for.
abbrev pub units_of : ℕ → Line → ℕ
units_of pk l = if l.product.pk == pk then l.quantity else 0

abbrev pub item_due : ℕ → PlacedItem → ℕ
item_due pk i = units_due pk i.item

-- No stock of the line has come back.
abbrev pub IsWhole : PlacedItem → Type 0
IsWhole i = i.item.stock_restored ≡ false

abbrev pub InKeys : (low high : ℕ) → PlacedItem → Type 0
InKeys low high i = (low ≤ i.item.pk) × (i.item.pk < high)

abbrev pub ApartItems : List PlacedItem → Type 0
ApartItems [] = Unit
ApartItems (i ∷ items) =
    (any (λ (j : PlacedItem). j.item.pk == i.item.pk) items ≡ false) × ApartItems items

pub InKeys-wider :
    (low high low' high' : ℕ) (items : List PlacedItem)
    → low' ≤ low
    → high ≤ high'
    → All (InKeys low high) items
    → All (InKeys low' high') items
InKeys-wider low high low' high' [] down up all = tt
InKeys-wider low high low' high' (i ∷ items) down up all = (
  (omega (arith, all.0.0), omega (arith, all.0.1)),
  InKeys-wider low high low' high' items down up all.1,
)

pub key-above :
    (k low high : ℕ) (items : List PlacedItem)
    → k < low
    → All (InKeys low high) items
    → any (λ (j : PlacedItem). j.item.pk == k) items ≡ false
key-above k low high [] below all = refl
key-above k low high (i ∷ items) below all =
    ground (arith, all.0.0, key-above k low high items below all.1)

pub ApartItems-append :
    (low mid high : ℕ) (xs ys : List PlacedItem)
    → ApartItems xs
    → ApartItems ys
    → All (InKeys low mid) xs
    → All (InKeys mid high) ys
    → ApartItems (xs ++ ys)
ApartItems-append low mid high [] ys apart apart' all all' = apart'
ApartItems-append low mid high (i ∷ xs) ys apart apart' all all' = (
  any-append (λ (j : PlacedItem). j.item.pk == i.item.pk) xs ys
      ∙ ground (arith, apart.0, key-above i.item.pk mid high ys all.0.1 all'),
  ApartItems-append low mid high xs ys apart.1 apart' all.1 all',
)
