-- ===== src/Orders/Checkout/Completed.antt =====
-- The amounts of a new order and the end of its placement, orders/checkout.py.
use mathlib.Core.List.{append-nil}
use zuvi_web.Prelude.{
  ℕ, ◌+◌, ◌≡◌, refl, sym, ap, ◌∙◌, not, Option, none, some, List, [], ◌∷◌, ◌++◌, arith, sum_of, All,
  map, select, ◌==◌,
}
use zuvi_web.Prelude.Sort.{sort_by, group_sum, sort-sum_of, group-sum_of}
use zuvi_web.Prelude.Text.{Text}
use zuvi_web.Prelude.Effect.{ok, ran, bind-eq-ok, and_then-eq-ok}
use zuvi_web.Inventory.Model.{Inventory, product_row}
use zuvi_web.Catalog.{Product}
use zuvi_web.Stores.{Store}
use zuvi_web.Orders.Model.{PaymentStatus, OrderStatus}
use zuvi_web.Orders.Lifecycle.{ApartRows}
use zuvi_web.Orders.Numbers.{order_number_max_attempts}
use zuvi_web.Orders.Numbers.Fresh.{save_numbered-Saved}
use zuvi_web.Shop.{Shop, Cart, CartItem, PlacedOrder, PlacedStoreOrder, PlacedItem, store_row}
use zuvi_web.Orders.Validation.{
  Submission, World, Line, by_product, line_amount, line_of, build_validated_line,
  build_validated_lines, validate_sellable_product,
}
use zuvi_web.Orders.Checkout.{Fulfillment}
use zuvi_web.Orders.Checkout.OrderRow.{lines_subtotal, insert_order, save_order}
use zuvi_web.Orders.Checkout.Placement.{
  first_status, empty_cart, by_store, lines_by_store, place_store_orders, complete_order,
}
use zuvi_web.Orders.Checkout.Balance.{units_of, Balanced, store_subtotal, line_total_of}
use zuvi_web.Orders.Checkout.Amounts.{IsNew, Itemized, store_row_of}
use zuvi_web.Orders.Checkout.Itemized.{place_store_orders-Itemized}
use zuvi_web.Orders.Checkout.Locks.{IsAlone}

-- What a cart line costs, at the product's price in the tables.
abbrev pub charge : List Product → CartItem → ℕ
charge ps i = elim (product_row i.product ps) [
  | none ↦ 0
  | some p ↦ elim p.final_price [ none ↦ 0 | some price ↦ line_amount price i.quantity ]
]

abbrev pub in_cart : Cart → Shop → List CartItem
in_cart c s = select (λ (i : CartItem). i.cart == c.pk) s.cart_items

-- What a new order `o` of the cart `c` consists of, from the shop `s` before the call to the shop `t`
-- after it.
pub record Receipt (c : Cart) (s : Shop) (o : PlacedOrder) (t : Shop) : Type 0 where
  pub news : List PlacedStoreOrder
  pub items : List PlacedItem
  pub orders : t.orders ≡ s.orders ++ o ∷ []
  pub store_orders : t.store_orders ≡ s.store_orders ++ news
  pub order_items : t.order_items ≡ s.order_items ++ items
  pub balanced : Balanced news items
  pub new : All (IsNew o) news
  pub apart : ApartRows (map store_row_of news)
  pub keyed : o.pk ≡ s.next_order
  pub placed : o.order.status ≡ OrderStatus.placed
  pub unpaid : o.order.payment_status ≡ PaymentStatus.pending
  pub charged : o.order.items_subtotal ≡ sum_of (charge s.inventory.products) (in_cart c s)
  pub shared : o.order.items_subtotal ≡ sum_of store_subtotal news
  pub payable : o.order.grand_total ≡ o.order.items_subtotal
  pub emptied : t.cart_items ≡ select (λ (i : CartItem). not (i.cart == c.pk)) s.cart_items

pub line_of-charge :
    (i : CartItem) (p : Product) (store : Option Store) (price : Option ℕ) {l : Line}
    → line_of i p store price ≡ ok l
    → l.line_total ≡ (elim price [ none ↦ 0 | some c ↦ line_amount c i.quantity ])
unfolding line_of
line_of-charge i p none price h = cc
line_of-charge i p (some store) none h = cc
line_of-charge i p (some store) (some price) {l} h = ground (arith, h)

pub line-charge :
    (today : ℕ) (s : Shop) (i : CartItem) (found : Option Product) {l : Line}
    → product_row i.product s.inventory.products ≡ found
    → build_validated_line today s i found ≡ ok l
    → l.line_total ≡ charge s.inventory.products i
unfolding build_validated_line
line-charge today s i none e h = cc
line-charge today s i (some p) {l} e h =
    let (_, _, h₁) =
      bind-eq-ok (validate_sellable_product today p (store_row p.store s.stores) i.quantity) _ h in
    line_of-charge i p (store_row p.store s.stores) p.final_price h₁ ∙ rw (e, charge) refl

pub lines-charge :
    (today : ℕ) (s : Shop) (items : List CartItem) {lines : List Line}
    → build_validated_lines today s items ≡ ok lines
    → lines_subtotal lines ≡ sum_of (charge s.inventory.products) items
unfolding build_validated_lines lines_subtotal
lines-charge today s [] {lines} h =
    let same : lines ≡ [] = cc in
    ap (λ (ls : List Line). sum_of (λ (l : Line). l.line_total) ls) same
lines-charge today s (i ∷ items) {lines} h =
    let (l, first, h₁) =
      bind-eq-ok (build_validated_line today s i (product_row i.product s.inventory.products)) _
        h in
    let (ls, rest, h₂) = bind-eq-ok (build_validated_lines today s items) _ h₁ in
    let same : lines ≡ l ∷ ls = cc in
    ap (λ (q : List Line). sum_of (λ (l : Line). l.line_total) q) same
    ∙ omega (arith, line-charge today s i _ refl first, lines-charge today s items rest)

pub saved-alone :
    (w : World) (a : Submission) (f : Fulfillment) (n : ℕ) (s : Shop) (o : PlacedOrder) (t : Shop)
    → IsAlone w
    → save_order w a f n s ≡ ok (some o, t)
    → (number : Text) × ((o, t) ≡ insert_order a f n number s)
unfolding save_order
saved-alone w a f n s o t alone h =
    let (number, u, kept, _, inserted) =
      save_numbered-Saved _ _ _ _ (λ (q : Shop). q ≡ s) (λ k q e. alone.order k q ∙ e)
        order_number_max_attempts 0 s h refl in
    (number, sym inserted ∙ ap (λ (q : Shop). insert_order a f n number q) kept)

pub charged-lines :
    (w : World) (s u : Shop) (c : Cart) (items : List CartItem) (lines : List Line)
    → build_validated_lines w.call.today u items ≡ ok lines
    → u.inventory ≡ s.inventory
    → items ≡ sort_by by_product (in_cart c s)
    → lines_subtotal lines ≡ sum_of (charge s.inventory.products) (in_cart c s)
charged-lines w s u c items lines valid same sorted =
    lines-charge w.call.today u items valid
    ∙ ap (λ (x : Inventory). sum_of (charge x.products) items) same
    ∙ ap (λ (l : List CartItem). sum_of (charge s.inventory.products) l) sorted
    ∙ sort-sum_of (charge s.inventory.products) by_product (in_cart c s)

pub grouped-lines :
    (lines : List Line)
    → sum_of (group_sum line_total_of) (lines_by_store lines) ≡ lines_subtotal lines
unfolding lines_by_store lines_subtotal
grouped-lines lines =
    group-sum_of line_total_of (λ (l : Line). l.store.pk) (sort_by by_store lines)
    ∙ sort-sum_of line_total_of by_store lines

-- The loop over the stores and the end of a placement that wrote the order `o`.
pub record Completed (w : World) (c : Cart) (f : Fulfillment) (lines : List Line) (o : PlacedOrder)
    (v : Shop) (r : PlacedOrder × Shop) : Type 0 where
  pub shop : Shop
  pub filled : place_store_orders w o f (lines_by_store lines) (first_status w o v) ≡ ok (tt, shop)
  pub itemized :
      Itemized o
        (first_status w o v)
        shop
        (0 + sum_of (group_sum line_total_of) (lines_by_store lines))
        (λ pk. 0 + sum_of (group_sum (units_of pk)) (lines_by_store lines))
  pub result : r ≡ (o, empty_cart w.call.now c.pk shop)

pub complete_order-Completed :
    (w : World) (c : Cart) (f : Fulfillment) (lines : List Line) (o : PlacedOrder) (v : Shop)
    {r : PlacedOrder × Shop}
    → IsAlone w
    → complete_order w c f lines o v ≡ ok r
    → Completed w c f lines o v r
unfolding complete_order
complete_order-Completed w c f lines o v {r} alone h =
    let v₁ : Shop = first_status w o v in
    let h₁ = ran tt v₁ _ h in
    let (_, t, filled, h₂) =
      and_then-eq-ok (place_store_orders w o f (lines_by_store lines) v₁) _ h₁ in
    let h₃ = ran tt (empty_cart w.call.now c.pk t) _ h₂ in
    let start : Itemized o v₁ v₁ 0 (λ pk. 0) = record {
      news = [];
      items = [];
      store_orders = sym (append-nil v₁.store_orders);
      order_items = sym (append-nil v₁.order_items);
      balanced = refl;
      total = refl;
      new = tt;
      below = tt;
      above = tt;
      starts = omega arith;
      apart = tt;
      whole = tt;
      keyed = tt;
      apart_items = tt;
      grows = omega arith;
      due = λ pk. refl;
      orders = refl;
      next_order = refl;
      cart_items = refl;
    } in
    record {
      shop = t;
      filled = filled;
      itemized =
          place_store_orders-Itemized w o f alone.store_order (lines_by_store lines) v₁ v₁ 0
            (λ pk. 0) start filled;
      result = cc;
    }
