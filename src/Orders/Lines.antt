-- ===== src/Orders/Lines.antt =====
-- orders/cancellation.py: the lines of an order are marked, and their stock comes back.
use zuvi_web.Prelude.{
  ℕ, ◌+◌, ◌/◌, ◌%◌, Bool, true, false, not, ◌&&◌, none, some, List, [], ◌∷◌, ◌++◌, any, select,
  find, ◌==◌, if◌then◌else◌,
}
use zuvi_web.Prelude.Text.{Text, text, decimal}
use zuvi_web.Prelude.Effect.{
  Result, ok, err, key_error, does_not_exist, Action, pure, get, modify, or_raise, ◌>>=◌, ◌>>◌,
}
use zuvi_web.Decimal.{of_thousandths}
use zuvi_web.Inventory.Model.{Inventory, product_row}
use zuvi_web.Inventory.OrderStock.{OrderMovement, order_item_restore_reference, restore_order_stock}
use zuvi_web.Orders.Model.{StoreOrder, OrderItem, OrderGraph, Call, put_order_item}

-- The rows of the table that are among the given ones.
abbrev pub is_among : List OrderItem → OrderItem → Bool
is_among items r = any (λ (i : OrderItem). i.pk == r.pk) items

abbrev pub mark_cancelled : ℕ → List OrderItem → List OrderItem → List OrderItem
mark_cancelled now items [] = []
mark_cancelled now items (r ∷ rows) =
    (if is_among items r && not r.is_cancelled
      then record r { is_cancelled = true; cancelled_at = some now }
      else r)
    ∷ mark_cancelled now items rows

unfoldable pub mark_order_items_cancelled : ℕ → List OrderItem → OrderGraph → OrderGraph
mark_order_items_cancelled now items g = record g {
  order_items = mark_cancelled now items g.order_items;
}

abbrev pub mark_rejected : ℕ → List OrderItem → List OrderItem → List OrderItem
mark_rejected now items [] = []
mark_rejected now items (r ∷ rows) =
    (if is_among items r && not r.is_rejected
      then record r { is_rejected = true; rejected_at = some now }
      else r)
    ∷ mark_rejected now items rows

unfoldable pub mark_order_items_rejected : ℕ → List OrderItem → OrderGraph → OrderGraph
mark_order_items_rejected now items g = record g {
  order_items = mark_rejected now items g.order_items;
}

unfoldable pub put_inventory :
    {A : Type 0} → OrderGraph → Result (A × Inventory) → Result (A × OrderGraph)
put_inventory g (ok (a, s)) = ok (a, record g { inventory = s })
put_inventory g (err e) = err e

-- A call of the inventory services.
abbrev pub in_inventory : {A : Type 0} → Action Inventory A → Action OrderGraph A
in_inventory m g = put_inventory g (m g.inventory)

-- A quantity as it is printed, with three decimal places.
abbrev pub quantity_text : ℕ → Text
quantity_text q =
    decimal (q / 1000)
    ++ (text "." ++ ((48 + (q / 100) % 10) ∷ (48 + (q / 10) % 10) ∷ (48 + q % 10) ∷ []))

unfoldable pub restoration : Call → Text → ℕ → OrderItem → OrderMovement
restoration c given store i = record {
  product = i.product;
  store = store;
  quantity = of_thousandths i.quantity;
  reference = order_item_restore_reference i.pk;
  actor = c.actor;
  reason = given;
  notes =
      text "Restored from order item "
      ++ (decimal i.pk
          ++ (text " ("
              ++ (i.product_code ++ (text " × " ++ (quantity_text i.quantity ++ text ").")))));
  ip_address = none;
  request = c.request;
}

-- The rows that the movement touches are locked: no other session is between.
unfoldable pub restore_item : Call → Text → OrderItem → Action OrderGraph (Unit {0})
restore_item c given i = do
  g ← get
  or_raise key_error (product_row i.product g.inventory.products)
  so ← or_raise does_not_exist (find (λ (so : StoreOrder). so.pk == i.store_order) g.store_orders)
  in_inventory (restore_order_stock c.today (λ s. s) (restoration c given so.store i))
  modify (put_order_item (record i { stock_restored = true; stock_restored_at = some c.now }))

-- A line whose stock is back is passed over.
unfoldable pub restore_unless : Call → Text → OrderItem → Bool → Action OrderGraph (Unit {0})
restore_unless c given i true = pure tt
restore_unless c given i false = restore_item c given i

unfoldable pub restore_items : Call → Text → List OrderItem → Action OrderGraph (Unit {0})
restore_items c given [] = pure tt
restore_items c given (i ∷ items) = do
  restore_unless c given i i.stock_restored
  restore_items c given items

unfoldable pub restore_order_items_stock :
    Call → Text → List OrderItem → Action OrderGraph (Unit {0})
restore_order_items_stock c given items = do
  g ← get
  restore_items c given (select (is_among items) g.order_items)
