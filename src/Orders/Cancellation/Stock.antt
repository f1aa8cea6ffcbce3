-- ===== src/Orders/Cancellation/Stock.antt =====
-- The stock that a cancellation brings back, orders/cancellation.py and inventory/services.py.
use zuvi_web.Prelude.{
  ℕ, ◌+◌, ◌≡◌, refl, sym, ap, ◌∙◌, subst, Bool, true, false, some, List, [], ◌∷◌, arith, sum_of,
}
use zuvi_web.Prelude.Text.{Text}
use zuvi_web.Prelude.Effect.{ok, and_then-eq-ok}
use zuvi_web.Inventory.Model.{Inventory, stock_of}
use zuvi_web.Orders.Model.{OrderItem, OrderGraph, Call}
use zuvi_web.Orders.Lines.{restore_unless, restore_items}
use zuvi_web.Orders.Cancellation.Steps.{restore_item-Restored}
use zuvi_web.Orders.Cancellation.Units.{
  units_due, restoration_moves, returned-stock_of, Due, IsFree-later,
}

-- One line of the loop.
unless-stock :
    (c : Call) (given : Text) (i : OrderItem) (items : List OrderItem) (b : Bool) (g : OrderGraph)
    {r : Unit {0} × OrderGraph}
    → i.stock_restored ≡ b
    → restore_unless c given i b g ≡ ok r
    → Due (i ∷ items) g.inventory
    → Due items r.1.inventory
      × ((pk n : ℕ)
          → stock_of pk g.inventory.products ≡ some n
          → stock_of pk r.1.inventory.products ≡ some (n + units_due pk i))
unfolding restore_unless
unless-stock c given i items true g {r} e h d =
    let same : r ≡ (tt, g) = cc in
    let stock : r.1.inventory ≡ g.inventory =
      ap (λ (q : Unit {0} × OrderGraph). q.1.inventory) same in
    (
      subst (Due items) (sym stock) (record { distinct = d.distinct.1; free = d.free.1 }),
      λ pk n known. ap (λ (t : Inventory). stock_of pk t.products) stock ∙ ground (arith, known, e),
    )
unless-stock c given i items false g {r} e h d =
    let v = restore_item-Restored c given i g h in
    let stock : r.1.inventory ≡ v.inventory = ap (λ (k : OrderGraph). k.inventory) v.result in
    let (p, found, products, rows, named) =
      restoration_moves c given i v.store g.inventory v.inventory v.row (d.free.0 e) v.moved in
    (
      subst (Due items) (sym stock) (record {
        distinct = d.distinct.1;
        free = IsFree-later i items g.inventory v.inventory v.row d.distinct.0 rows named d.free.1;
      }),
      λ pk n known.
          ap (λ (t : Inventory). stock_of pk t.products) stock
          ∙ returned-stock_of pk i n g.inventory v.inventory p found products known
          ∙ ap some (ground (arith, e)),
    )

-- The loop adds to each product's stock the quantities of its lines that were due.
pub restore_items-stock :
    (c : Call) (given : Text) (items : List OrderItem) (g : OrderGraph) {r : Unit {0} × OrderGraph}
    → restore_items c given items g ≡ ok r
    → Due items g.inventory
    → (pk n : ℕ) → stock_of pk g.inventory.products ≡ some n
    → stock_of pk r.1.inventory.products ≡ some (n + sum_of (units_due pk) items)
unfolding restore_items
restore_items-stock c given [] g {r} h d pk n known =
    let same : r ≡ (tt, g) = cc in
    ap (λ (q : Unit {0} × OrderGraph). stock_of pk q.1.inventory.products) same
    ∙ known
    ∙ ap some (omega arith)
restore_items-stock c given (i ∷ items) g h d pk n known =
    let (u, k, first, rest) = and_then-eq-ok (restore_unless c given i i.stock_restored g) _ h in
    let (later, step) = unless-stock c given i items i.stock_restored g refl first d in
    restore_items-stock c given items k rest later pk (n + units_due pk i) (step pk n known)
    ∙ ap some (omega arith)
