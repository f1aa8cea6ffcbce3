-- ===== src/Orders/Checkout/Amounts.antt =====
-- orders/checkout.py: what a line and a store order that checkout writes consist of.
use mathlib.Core.List.{append_assoc, append-nil}
use zuvi_web.Prelude.{
  ℕ, ◌+◌, ◌≤◌, ◌<◌, ◌≡◌, refl, sym, ap, ◌∙◌, subst, false, List, [], ◌∷◌, ◌++◌, arith, sum_of, All,
  any-append, map, ◌==◌,
}
use zuvi_web.Prelude.Effect.{ok, and_then-eq-ok}
use zuvi_web.Orders.Model.{StoreOrderStatus, StoreOrder}
use zuvi_web.Orders.Lifecycle.{ApartRows}
use zuvi_web.Shop.{Shop, PlacedOrder, PlacedStoreOrder, PlacedItem}
use zuvi_web.Orders.Validation.{World, Line}
use zuvi_web.Orders.Checkout.StoreRows.{item_row, place_line, place_lines}
use zuvi_web.Orders.Checkout.Rows.{LinePlaced, place_line-LinePlaced}
use zuvi_web.Orders.Checkout.Balance.{
  item_total, store_subtotal, line_total_of, Balanced, units_of, item_due, IsWhole, InKeys,
  ApartItems, InKeys-wider, key-above,
}

module _ (w : World) (o : PlacedOrder) (so : PlacedStoreOrder) where
  -- The lines of one store order.
  pub record LinesWritten (ls : List Line) (s t : Shop) : Type 0 where
    pub block : List PlacedItem
    pub rows : t.order_items ≡ s.order_items ++ block
    pub mine : All (λ (i : PlacedItem). i.item.store_order ≡ so.row.pk) block
    pub total : sum_of item_total block ≡ sum_of line_total_of ls
    pub whole : All IsWhole block
    pub keyed : All (InKeys s.next_order_item t.next_order_item) block
    pub apart : ApartItems block
    pub grows : s.next_order_item ≤ t.next_order_item
    pub due : (pk : ℕ) → sum_of (item_due pk) block ≡ sum_of (units_of pk) ls
    pub store_orders : t.store_orders ≡ s.store_orders
    pub next_store_order : t.next_store_order ≡ s.next_store_order
    pub orders : t.orders ≡ s.orders
    pub next_order : t.next_order ≡ s.next_order
    pub cart_items : t.cart_items ≡ s.cart_items

  pub line-Written :
      (l : Line) (ls : List Line) (s u t : Shop)
      → LinePlaced w o so l s u
      → LinesWritten ls u t
      → LinesWritten (l ∷ ls) s t
  unfolding item_row
  line-Written l ls s u t v rest =
      let i = item_row so l s.next_order_item in
      let later : u.next_order_item ≡ s.next_order_item + 1 =
        ap (λ (q : Shop). q.next_order_item) v.result in
      let rows : u.order_items ≡ s.order_items ++ i ∷ [] =
        ap (λ (q : Shop). q.order_items) v.result in
      record {
        block = i ∷ rest.block;
        rows =
            rest.rows
            ∙ ap (λ (q : List PlacedItem). q ++ rest.block) rows
            ∙ append_assoc s.order_items (i ∷ []) rest.block;
        mine = (refl, rest.mine);
        total = ap (λ (n : ℕ). l.line_total + n) rest.total;
        whole = (refl, rest.whole);
        keyed = (
          (omega arith, omega (arith, later, rest.grows)),
          InKeys-wider u.next_order_item t.next_order_item s.next_order_item t.next_order_item
              rest.block (omega (arith, later)) (omega arith) rest.keyed,
        );
        apart = (
          key-above s.next_order_item u.next_order_item t.next_order_item rest.block
              (omega (arith, later)) rest.keyed,
          rest.apart,
        );
        grows = omega (arith, later, rest.grows);
        due = λ pk. omega (arith, rest.due pk);
        store_orders = rest.store_orders ∙ ap (λ (q : Shop). q.store_orders) v.result;
        next_store_order = rest.next_store_order ∙ ap (λ (q : Shop). q.next_store_order) v.result;
        orders = rest.orders ∙ ap (λ (q : Shop). q.orders) v.result;
        next_order = rest.next_order ∙ ap (λ (q : Shop). q.next_order) v.result;
        cart_items = rest.cart_items ∙ ap (λ (q : Shop). q.cart_items) v.result;
      }

  pub place_lines-Written :
      (ls : List Line) (s : Shop) {r : Unit {0} × Shop}
      → place_lines w o so ls s ≡ ok r
      → LinesWritten ls s r.1
  unfolding place_lines
  place_lines-Written [] s {r} h =
      let same : r ≡ (tt, s) = cc in
      subst (λ (q : Unit {0} × Shop). LinesWritten [] s q.1) (sym same)
        (record {
          block = [];
          rows = sym (append-nil s.order_items);
          mine = tt;
          total = refl;
          whole = tt;
          keyed = tt;
          apart = tt;
          grows = omega arith;
          due = λ pk. refl;
          store_orders = refl;
          next_store_order = refl;
          orders = refl;
          next_order = refl;
          cart_items = refl;
        })
  place_lines-Written (l ∷ ls) s {r} h =
      let (_, u, first, rest) = and_then-eq-ok (place_line w o so l s) _ h in
      line-Written l ls s u r.1 (place_line-LinePlaced w o so l s first)
        (place_lines-Written ls u rest)

abbrev pub store_row_of : PlacedStoreOrder → StoreOrder
store_row_of so = so.row

pub ApartRows-append :
    (so : StoreOrder) (rows : List StoreOrder)
    → ApartRows rows
    → All (λ (r : StoreOrder). (so.pk == r.pk) ≡ false) rows
    → ApartRows (rows ++ so ∷ [])
ApartRows-append so [] apart all = (refl, tt)
ApartRows-append so (r ∷ rows) apart all = (
  any-append (λ (q : StoreOrder). q.pk == r.pk) rows (so ∷ []) ∙ ground (arith, apart.0, all.0),
  ApartRows-append so rows apart.1 all.1,
)

-- What the rows of an order's store orders have in common, and that keys below `k` are theirs.
pub record IsNew (o : PlacedOrder) (so : PlacedStoreOrder) : Type 0 where
  pub mine : so.order ≡ o.pk
  pub pending : so.row.status ≡ StoreOrderStatus.pending
  pub whole : so.store_total ≡ so.row.items_subtotal
  pub uncharged : so.row.delivery_charge ≡ 0

-- The store orders that are written so far, from the shop `s` on, with amounts of `n` in all.
pub record Itemized (o : PlacedOrder) (s t : Shop) (n : ℕ) (due_of : ℕ → ℕ) : Type 0 where
  pub news : List PlacedStoreOrder
  pub items : List PlacedItem
  pub store_orders : t.store_orders ≡ s.store_orders ++ news
  pub order_items : t.order_items ≡ s.order_items ++ items
  pub balanced : Balanced news items
  pub total : sum_of store_subtotal news ≡ n
  pub new : All (IsNew o) news
  pub below : All (λ (so : PlacedStoreOrder). so.row.pk < t.next_store_order) news
  pub above : All (λ (so : PlacedStoreOrder). s.next_store_order ≤ so.row.pk) news
  pub starts : s.next_store_order ≤ t.next_store_order
  pub apart : ApartRows (map store_row_of news)
  pub whole : All IsWhole items
  pub keyed : All (InKeys s.next_order_item t.next_order_item) items
  pub apart_items : ApartItems items
  pub grows : s.next_order_item ≤ t.next_order_item
  pub due : (pk : ℕ) → sum_of (item_due pk) items ≡ due_of pk
  pub orders : t.orders ≡ s.orders
  pub next_order : t.next_order ≡ s.next_order
  pub cart_items : t.cart_items ≡ s.cart_items

pub All-later :
    (m n : ℕ) (rows : List PlacedStoreOrder)
    → n ≡ m + 1
    → All (λ (so : PlacedStoreOrder). so.row.pk < m) rows
    → All (λ (so : PlacedStoreOrder). so.row.pk < n) rows
All-later m n [] e all = tt
All-later m n (r ∷ rows) e all = (omega (arith, all.0), All-later m n rows e all.1)

pub map-append :
    (xs : List PlacedStoreOrder) (x : PlacedStoreOrder)
    → map store_row_of (xs ++ x ∷ []) ≡ map store_row_of xs ++ x.row ∷ []
map-append [] x = refl
map-append (y ∷ xs) x = ap (λ (l : List StoreOrder). y.row ∷ l) (map-append xs x)

pub All-apart :
    (so : StoreOrder) (rows : List PlacedStoreOrder)
    → All (λ (r : PlacedStoreOrder). r.row.pk < so.pk) rows
    → All (λ (r : StoreOrder). (so.pk == r.pk) ≡ false) (map store_row_of rows)
All-apart so [] all = tt
All-apart so (r ∷ rows) all = (ground (arith, all.0), All-apart so rows all.1)
