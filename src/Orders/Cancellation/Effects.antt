-- ===== src/Orders/Cancellation/Effects.antt =====
-- What the return of stock leaves as it is, and what it does to the lines, orders/cancellation.py.
use zuvi_web.Prelude.{
  ℕ, ◌≡◌, refl, sym, ap, ◌∙◌, subst, Bool, true, false, List, [], ◌∷◌, any, select, All, ◌==◌,
  arith,
}
use zuvi_web.Prelude.Text.{Text}
use zuvi_web.Prelude.Effect.{ok, running, ran, and_then-eq-ok, and_then}
use zuvi_web.Orders.Model.{OrderItem, OrderGraph, Call, replace_order_item}
use zuvi_web.Orders.Lines.{is_among, restore_unless, restore_items, restore_order_items_stock}
use zuvi_web.Orders.Cancellation.Steps.{
  Keeps, restore_item-Restored, due, IsRestored, Remaining, restore_items-Keeps,
}

-- The keys of the lines stay among those of `items`.
abbrev pub IsListed : List OrderItem → OrderItem → Type 0
IsListed items r = is_among items r ≡ true

pub select-listed :
    (items rows : List OrderItem) → All (IsListed items) rows → select (is_among items) rows ≡ rows
select-listed items [] all = refl
select-listed items (r ∷ rows) all = ground (arith, all.0, select-listed items rows all.1)

start-Remaining :
    (items rows : List OrderItem)
    → ((r : OrderItem) → due rows r ≡ true → due items r ≡ true)
    → All (Remaining items) rows
start-Remaining items [] sub = tt
start-Remaining items (r ∷ rows) sub =
    (ground (arith, sub r), start-Remaining items rows (λ q d. sub q (ground (arith, d))))

is_among-key :
    (items : List OrderItem) (r i : OrderItem)
    → (r.pk == i.pk) ≡ true
    → is_among items i ≡ is_among items r
is_among-key items r i h =
    let same : i.pk ≡ r.pk = ground arith in
    ap (λ (k : ℕ). any (λ (j : OrderItem). j.pk == k) items) same

replace-Listed :
    (items : List OrderItem) (i : OrderItem) (rows : List OrderItem)
    → All (IsListed items) rows
    → All (IsListed items) (replace_order_item i rows)
replace-Listed items i [] all = tt
replace-Listed items i (r ∷ rows) all =
    (ground (arith, is_among-key items r i, all.0), replace-Listed items i rows all.1)

unless-Listed :
    (c : Call) (given : Text) (listed : List OrderItem) (i : OrderItem) (b : Bool) (g : OrderGraph)
    {r : Unit {0} × OrderGraph}
    → restore_unless c given i b g ≡ ok r
    → All (IsListed listed) g.order_items
    → All (IsListed listed) r.1.order_items
unfolding restore_unless
unless-Listed c given listed i true g {r} h all =
    let same : r ≡ (tt, g) = cc in
    subst (λ (q : Unit {0} × OrderGraph). All (IsListed listed) q.1.order_items) (sym same) all
unless-Listed c given listed i false g h all =
    subst (λ (k : OrderGraph). All (IsListed listed) k.order_items)
      (sym (restore_item-Restored c given i g h).result) (replace-Listed listed _ g.order_items all)

restore_items-Listed :
    (c : Call) (given : Text) (listed items : List OrderItem) (g : OrderGraph)
    {r : Unit {0} × OrderGraph}
    → restore_items c given items g ≡ ok r
    → All (IsListed listed) g.order_items
    → All (IsListed listed) r.1.order_items
unfolding restore_items
restore_items-Listed c given listed [] g {r} h all =
    let same : r ≡ (tt, g) = cc in
    subst (λ (q : Unit {0} × OrderGraph). All (IsListed listed) q.1.order_items) (sym same) all
restore_items-Listed c given listed (i ∷ items) g h all =
    let (u, k, first, rest) = and_then-eq-ok (restore_unless c given i i.stock_restored g) _ h in
    restore_items-Listed c given listed items k rest
      (unless-Listed c given listed i i.stock_restored g first all)

-- Where `items` lists every line, all the stock is back.
pub restore_order_items_stock-Keeps :
    (c : Call) (given : Text) (items : List OrderItem) (g : OrderGraph) {r : Unit {0} × OrderGraph}
    → restore_order_items_stock c given items g ≡ ok r
    → Keeps g r.1
      × (All (IsListed items) g.order_items
          → All IsRestored r.1.order_items × All (IsListed items) r.1.order_items)
unfolding restore_order_items_stock
restore_order_items_stock-Keeps c given items g h =
    let h₁ = ran g g _ h in
    let rows = select (is_among items) g.order_items in
    let (kept, restored) = restore_items-Keeps c given rows g h₁ in
    (
      kept,
      λ all.
          let every : rows ≡ g.order_items = select-listed items g.order_items all in
          (
            restored (
                start-Remaining rows g.order_items
                  (λ r d. subst (λ (l : List OrderItem). due l r ≡ true) (sym every) d)),
            restore_items-Listed c given items rows g h₁ all,
          ),
    )

-- Lines whose stock is back are passed over.
restore_items_idle :
    (c : Call) (given : Text) (items : List OrderItem) (g : OrderGraph)
    → All IsRestored items
    → restore_items c given items g ≡ ok (tt, g)
unfolding restore_items restore_unless running
restore_items_idle c given [] g all = refl
restore_items_idle c given (i ∷ items) g all =
    ground (arith, all.0, restore_items_idle c given items g all.1)

pub restore_order_items_stock_idle :
    (c : Call) (given : Text) (items : List OrderItem) (g : OrderGraph)
    → All IsRestored g.order_items
    → All (IsListed items) g.order_items
    → restore_order_items_stock c given items g ≡ ok (tt, g)
unfolding restore_order_items_stock and_then
restore_order_items_stock_idle c given items g all listed =
    ap (λ (rows : List OrderItem). restore_items c given rows g)
      (select-listed items g.order_items listed)
    ∙ restore_items_idle c given g.order_items g all
