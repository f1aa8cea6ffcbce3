-- ===== src/Orders/Lifecycle/Sweep.antt =====
-- A loop over store orders that saves some of them with a new status, orders/cancellation.py and
-- orders/management_status.py, as a sequence of steps.
use zuvi_web.Prelude.{
  ◌≡◌, refl, Bool, true, false, not, ◌&&◌, ◌||◌, List, [], ◌∷◌, any, select, All, ◌==◌, arith,
}
use zuvi_web.Orders.Model.{StoreOrderStatus, StoreOrder, replace_store_order}
use zuvi_web.Orders.Lifecycle.{some_row, ApartRows}
use zuvi_web.Orders.Lifecycle.Rows.{some_row-replace, some_row-replaced, replace-apart}

abbrev pub saved : StoreOrder → StoreOrderStatus → StoreOrder
saved so t = record so { status = t }

-- The loop over a list of rows takes one table to another. A saved status passes `p` and `k`, and a
-- row that is passed over passes `p` already.
pub data Sweep (p k : StoreOrderStatus → Bool)
    : List StoreOrder → List StoreOrder → List StoreOrder → Type 0 where
  done : {rows : List StoreOrder} → Sweep p k [] rows rows
  save :
      (so : StoreOrder) (t : StoreOrderStatus) {items rows rows' : List StoreOrder}
      → p t ≡ true
      → k t ≡ true
      → Sweep p k items (replace_store_order (saved so t) rows) rows'
      → Sweep p k (so ∷ items) rows rows'
  skip :
      (so : StoreOrder) {items rows rows' : List StoreOrder}
      → p so.status ≡ true
      → Sweep p k items rows rows'
      → Sweep p k (so ∷ items) rows rows'

module _ (p k : StoreOrderStatus → Bool) where
  pub Sweep-apart :
      {items rows rows' : List StoreOrder}
      → Sweep p k items rows rows'
      → ApartRows rows
      → ApartRows rows'
  Sweep-apart done a = a
  Sweep-apart (save so t {rows = rows} pt kt rest) a =
      Sweep-apart rest (replace-apart (saved so t) rows a)
  Sweep-apart (skip so ps rest) a = Sweep-apart rest a

  pub Sweep-keeps :
      {items rows rows' : List StoreOrder}
      → Sweep p k items rows rows'
      → some_row k rows ≡ true
      → some_row k rows' ≡ true
  Sweep-keeps done h = h
  Sweep-keeps (save so t {rows = rows} pt kt rest) h =
      Sweep-keeps rest (some_row-replaced k (saved so t) rows h kt)
  Sweep-keeps (skip so ps rest) h = Sweep-keeps rest h

  pub Sweep-adds :
      {items rows rows' : List StoreOrder}
      → Sweep p k items rows rows'
      → some_row (λ s. not (k s)) rows' ≡ true
      → some_row (λ s. not (k s)) rows ≡ true
  Sweep-adds done h = h
  Sweep-adds (save so t {rows = rows} pt kt rest) h =
      ground (arith, kt, some_row-replace (λ s. not (k s)) (saved so t) rows (Sweep-adds rest h))
  Sweep-adds (skip so ps rest) h = Sweep-adds rest h

  -- A row passes, or it is still to come.
  waits : List StoreOrder → StoreOrder → Bool
  waits items r = any (λ (so : StoreOrder). so.pk == r.pk && not (p so.status)) items

  abbrev Waiting : List StoreOrder → StoreOrder → Type 0
  unfolding waits
  Waiting items r = (p r.status || waits items r) ≡ true

  replace-Waiting :
      (t : StoreOrderStatus) (so : StoreOrder) (items rows : List StoreOrder)
      → p t ≡ true
      → All (Waiting (so ∷ items)) rows
      → All (Waiting items) (replace_store_order (saved so t) rows)
  unfolding waits
  replace-Waiting t so items [] h all = tt
  replace-Waiting t so items (r ∷ rows) h all =
      (ground (arith, h, all.0), replace-Waiting t so items rows h all.1)

  skip-Waiting :
      (so : StoreOrder) (items rows : List StoreOrder)
      → p so.status ≡ true
      → All (Waiting (so ∷ items)) rows
      → All (Waiting items) rows
  unfolding waits
  skip-Waiting so items [] h all = tt
  skip-Waiting so items (r ∷ rows) h all =
      (ground (arith, h, all.0), skip-Waiting so items rows h all.1)

  none-Waiting :
      (rows : List StoreOrder) → All (Waiting []) rows → some_row (λ s. not (p s)) rows ≡ false
  unfolding waits
  none-Waiting [] all = refl
  none-Waiting (r ∷ rows) all = ground (arith, all.0, none-Waiting rows all.1)

  Sweep-Waiting :
      {items rows rows' : List StoreOrder}
      → Sweep p k items rows rows'
      → All (Waiting items) rows
      → some_row (λ s. not (p s)) rows' ≡ false
  Sweep-Waiting (done {rows = rows}) all = none-Waiting rows all
  Sweep-Waiting (save so t {items = items} {rows = rows} pt kt rest) all =
      Sweep-Waiting rest (replace-Waiting t so items rows pt all)
  Sweep-Waiting (skip so {items = items} {rows = rows} ps rest) all =
      Sweep-Waiting rest (skip-Waiting so items rows ps all)

  start-Waiting :
      (items rows : List StoreOrder)
      → ((r : StoreOrder) → p r.status ≡ false → waits rows r ≡ true → waits items r ≡ true)
      → All (Waiting items) rows
  unfolding waits
  start-Waiting items [] sub = tt
  start-Waiting items (r ∷ rows) sub =
      (ground (arith, sub r), start-Waiting items rows (λ q h w. sub q h (ground (arith, w))))

  -- The loop over the whole table, and over those rows of it that may not stay as they are.
  pub Sweep-all :
      {rows rows' : List StoreOrder}
      → Sweep p k rows rows rows'
      → some_row (λ s. not (p s)) rows' ≡ false
  Sweep-all {rows = rows} w = Sweep-Waiting w (start-Waiting rows rows (λ r h u. u))

  waits-select :
      (q : StoreOrder → Bool) (rows : List StoreOrder) (r : StoreOrder)
      → ((so : StoreOrder) → p so.status ≡ false → q so ≡ true)
      → waits rows r ≡ true
      → waits (select q rows) r ≡ true
  unfolding waits
  waits-select q [] r h w = cc
  waits-select q (so ∷ rows) r h w = ground (arith, h so, waits-select q rows r h)

  pub Sweep-select :
      (q : StoreOrder → Bool) {rows rows' : List StoreOrder}
      → ((so : StoreOrder) → p so.status ≡ false → q so ≡ true)
      → Sweep p k (select q rows) rows rows'
      → some_row (λ s. not (p s)) rows' ≡ false
  Sweep-select q {rows = rows} h w =
      Sweep-Waiting w (start-Waiting (select q rows) rows (λ r e u. waits-select q rows r h u))
