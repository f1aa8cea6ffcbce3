-- ===== src/Orders/Checkout/Stock.antt =====
-- The stock that a checkout takes, orders/checkout.py, where no other session is between.
use zuvi_web.Prelude.{
  ℕ, ◌+◌, ◌≡◌, refl, sym, ap, ◌∙◌, subst, Option, none, some, List, [], ◌∷◌, ◌==◌, if◌then◌else◌,
  arith, sum_of,
}
use zuvi_web.Prelude.Sort.{Group, members, group_sum, sort_by, sort-sum_of, group-sum_of}
use zuvi_web.Prelude.Text.{Text}
use zuvi_web.Prelude.Effect.{ok, ran, and_then-eq-ok, bind-eq-ok}
use zuvi_web.Catalog.{Product}
use zuvi_web.Stores.{Store}
use zuvi_web.Inventory.Model.{Inventory, product_row}
use zuvi_web.Shop.{Shop, Cart, CartItem, PlacedOrder, PlacedStoreOrder, store_row}
use zuvi_web.Cart.{cart_of}
use zuvi_web.Orders.Validation.{
  Submission, World, Line, by_product, line_of, build_validated_line, build_validated_lines,
  validate_sellable_product,
}
use zuvi_web.Orders.Checkout.{Fulfillment}
use zuvi_web.Orders.Checkout.OrderRow.{order_with_token, lines_subtotal, insert_order}
use zuvi_web.Orders.Checkout.StoreRows.{item_row, insert_store_order, place_line, place_lines}
use zuvi_web.Orders.Checkout.Placement.{
  first_store_status, first_status, empty_cart, by_store, lines_by_store, place_store_order,
  place_store_orders, complete_order, place_customer_order,
}
use zuvi_web.Orders.Checkout.Rows.{
  LinePlaced, place_line-LinePlaced, StoreOrderPlaced, place_store_order-Placed,
}
use zuvi_web.Orders.Checkout.Locks.{IsAlone}
use zuvi_web.Orders.Checkout.Completed.{in_cart}
use zuvi_web.Orders.Checkout.Receipt.{place-NewOrder}
use zuvi_web.Orders.Checkout.Balance.{units_of}
use zuvi_web.Orders.Checkout.Units.{
  line_deduction-Deducted, Sold, Sold-add, Deducted-Sold, Unused, Unused-later,
}

-- The units of a product that a cart line asks for.
abbrev pub units_wanted : ℕ → CartItem → ℕ
units_wanted pk i = if i.product == pk then i.quantity else 0

abbrev pub UnusedIn : Shop → Type 0
UnusedIn s = Unused s.next_order_item s.inventory

-- From `s` to `t`, `n` units of the product went out, and the references to come are unused still.
abbrev pub Sells : (pk n : ℕ) → Shop → Shop → Type 0
Sells pk n s t = UnusedIn s → UnusedIn t × Sold pk n s.inventory t.inventory

Sells-none : (pk : ℕ) (s t : Shop) → t ≡ s → Sells pk 0 s t
Sells-none pk s t e = subst (Sells pk 0 s) (sym e) (λ u. (u, λ v known. (v, known, omega arith)))

Sells-add : (pk m n : ℕ) (s t u : Shop) → Sells pk m s t → Sells pk n t u → Sells pk (m + n) s u
Sells-add pk m n s t u first rest unused =
    let (later, sold) = first unused in
    let (last, sold') = rest later in
    (last, Sold-add pk m n s.inventory t.inventory u.inventory sold sold')

module _ (w : World) (o : PlacedOrder) (pk : ℕ) where
  line-Sells :
      (so : PlacedStoreOrder) (l : Line) (s t : Shop)
      → LinePlaced w o so l s t
      → Sells pk (units_of pk l) s t
  unfolding item_row
  line-Sells so l s t v unused =
      let k = s.next_order_item in
      let d =
        line_deduction-Deducted w o l k s.inventory v.stock v.row (unused k (omega arith))
          v.deducted in
      let later = Unused-later k l.product.pk l.quantity s.inventory v.row v.stock unused d in
      (
        subst UnusedIn (sym v.result) later,
        subst (λ (x : Shop). Sold pk (units_of pk l) s.inventory x.inventory) (sym v.result)
            (Deducted-Sold pk l.product.pk l.quantity _ s.inventory v.row v.stock d),
      )

  lines-Sells :
      (so : PlacedStoreOrder) (ls : List Line) (s : Shop) {r : Unit {0} × Shop}
      → place_lines w o so ls s ≡ ok r
      → Sells pk (sum_of (units_of pk) ls) s r.1
  unfolding place_lines
  lines-Sells so [] s {r} h =
      let same : r ≡ (tt, s) = cc in Sells-none pk s r.1 (ap (λ (q : Unit {0} × Shop). q.1) same)
  lines-Sells so (l ∷ ls) s {r} h =
      let (_, u, first, rest) = and_then-eq-ok (place_line w o so l s) _ h in
      Sells-add pk (units_of pk l) (sum_of (units_of pk) ls) s u r.1
        (line-Sells so l s u (place_line-LinePlaced w o so l s first)) (lines-Sells so ls u rest)

  store-Sells :
      (f : Fulfillment) (g : Group Line) (s t : Shop)
      → StoreOrderPlaced w o f g (λ q. q ≡ s) s t
      → Sells pk (sum_of (units_of pk) (members g)) s t
  unfolding insert_store_order first_store_status
  store-Sells f g s t v =
      let made : insert_store_order o v.pickup g v.number s ≡ (v.row, v.after) =
        ap (λ (q : Shop). insert_store_order o v.pickup g v.number q) (sym v.kept) ∙ v.inserted in
      let start : Sells pk 0 s (first_store_status w v.row v.after) =
        subst (λ (q : PlacedStoreOrder × Shop). Sells pk 0 s (first_store_status w v.row q.1)) made
          (λ unused. (unused, λ n known. (n, known, omega arith))) in
      subst (λ (n : ℕ). Sells pk n s t) (omega arith)
        (Sells-add pk 0 (sum_of (units_of pk) (members g)) s (first_store_status w v.row v.after) t
          start (lines-Sells v.row (members g) (first_store_status w v.row v.after) v.filled))

  stores-Sells :
      (f : Fulfillment)
      → ((k : ℕ) (s : Shop) → w.before_store_order k s ≡ s)
      → (gs : List (Group Line)) (s : Shop) {r : Unit {0} × Shop}
      → place_store_orders w o f gs s ≡ ok r
      → Sells pk (sum_of (group_sum (units_of pk)) gs) s r.1
  unfolding place_store_orders
  stores-Sells f alone [] s {r} h =
      let same : r ≡ (tt, s) = cc in Sells-none pk s r.1 (ap (λ (q : Unit {0} × Shop). q.1) same)
  stores-Sells f alone (g ∷ gs) s {r} h =
      let (_, u, first, rest) = and_then-eq-ok (place_store_order w o f g s) _ h in
      let v = place_store_order-Placed w o f g (λ q. q ≡ s) (λ k q e. alone k q ∙ e) s first refl in
      Sells-add pk (group_sum (units_of pk) g) (sum_of (group_sum (units_of pk)) gs) s u r.1
        (store-Sells f g s u v) (stores-Sells f alone gs u rest)

key-row : (pk : ℕ) (ps : List Product) (p : Product) → product_row pk ps ≡ some p → p.pk ≡ pk
key-row pk [] p h = cc
key-row pk (q ∷ ps) p h = ground (arith, key-row pk ps p)

line_of-units :
    (pk : ℕ) (i : CartItem) (p : Product) (store : Option Store) (price : Option ℕ) {l : Line}
    → line_of i p store price ≡ ok l
    → p.pk ≡ i.product
    → units_of pk l ≡ units_wanted pk i
unfolding line_of
line_of-units pk i p none price h e = cc
line_of-units pk i p (some store) none h e = cc
line_of-units pk i p (some store) (some price) h e = ground (arith, h)

line-units :
    (pk today : ℕ) (s : Shop) (i : CartItem) (found : Option Product) {l : Line}
    → product_row i.product s.inventory.products ≡ found
    → build_validated_line today s i found ≡ ok l
    → units_of pk l ≡ units_wanted pk i
unfolding build_validated_line
line-units pk today s i none e h = cc
line-units pk today s i (some p) e h =
    let (_, _, h₁) =
      bind-eq-ok (validate_sellable_product today p (store_row p.store s.stores) i.quantity) _ h in
    line_of-units pk i p (store_row p.store s.stores) p.final_price h₁
      (key-row i.product s.inventory.products p e)

pub lines-units :
    (pk today : ℕ) (s : Shop) (items : List CartItem) {lines : List Line}
    → build_validated_lines today s items ≡ ok lines
    → sum_of (units_of pk) lines ≡ sum_of (units_wanted pk) items
unfolding build_validated_lines
lines-units pk today s [] {lines} h =
    let same : lines ≡ [] = cc in ap (λ (ls : List Line). sum_of (units_of pk) ls) same
lines-units pk today s (i ∷ items) {lines} h =
    let (l, first, h₁) =
      bind-eq-ok (build_validated_line today s i (product_row i.product s.inventory.products)) _
        h in
    let (ls, rest, h₂) = bind-eq-ok (build_validated_lines today s items) _ h₁ in
    let same : lines ≡ l ∷ ls = cc in
    ap (λ (q : List Line). sum_of (units_of pk) q) same
    ∙ omega (arith, line-units pk today s i _ refl first, lines-units pk today s items rest)

pub wanted-units :
    (pk today : ℕ) (s u : Shop) (c : Cart) (items : List CartItem) (lines : List Line)
    → build_validated_lines today u items ≡ ok lines
    → items ≡ sort_by by_product (in_cart c s)
    → sum_of (group_sum (units_of pk)) (lines_by_store lines)
      ≡ sum_of (units_wanted pk) (in_cart c s)
unfolding lines_by_store
wanted-units pk today s u c items lines valid sorted =
    group-sum_of (units_of pk) (λ (l : Line). l.store.pk) (sort_by by_store lines)
    ∙ sort-sum_of (units_of pk) by_store lines
    ∙ lines-units pk today u items valid
    ∙ ap (λ (l : List CartItem). sum_of (units_wanted pk) l) sorted
    ∙ sort-sum_of (units_wanted pk) by_product (in_cart c s)

completed-Sells :
    (w : World) (a : Submission) (pk : ℕ) (c : Cart) (f : Fulfillment) (lines : List Line) (n : ℕ)
    (number : Text) (o : PlacedOrder) (u v : Shop) {r : PlacedOrder × Shop}
    → IsAlone w
    → (o, v) ≡ insert_order a f n number u
    → complete_order w c f lines o v ≡ ok r
    → Sells pk (sum_of (group_sum (units_of pk)) (lines_by_store lines)) u r.1
unfolding complete_order insert_order first_status empty_cart
completed-Sells w a pk c f lines n number o u v {r} alone inserted h unused =
    let v₁ : Shop = first_status w o v in
    let h₁ = ran tt v₁ _ h in
    let (_, t, filled, h₂) =
      and_then-eq-ok (place_store_orders w o f (lines_by_store lines) v₁) _ h₁ in
    let h₃ = ran tt (empty_cart w.call.now c.pk t) _ h₂ in
    let same : r ≡ (o, empty_cart w.call.now c.pk t) = cc in
    let started : UnusedIn v₁ =
      subst (λ (q : PlacedOrder × Shop). UnusedIn q.1) (sym inserted) unused in
    let (last, sold) =
      stores-Sells w o pk f alone.store_order (lines_by_store lines) v₁ filled started in
    let stock : v.inventory ≡ u.inventory =
      ap (λ (q : PlacedOrder × Shop). q.1.inventory) inserted in
    let n = sum_of (group_sum (units_of pk)) (lines_by_store lines) in
    subst (λ (q : PlacedOrder × Shop). UnusedIn q.1 × Sold pk n u.inventory q.1.inventory)
      (sym same) (last, subst (λ (x : Inventory). Sold pk n x t.inventory) stock sold)

-- A checkout of the customer's cart, where no order is under the token yet, no ledger row is under the
-- reference of an order line to come, and no other session is between, that returns has taken from
-- the stock of each product exactly the units that the cart held of it, which were there. The
-- references of the order lines to come are unused still.
pub place_customer_order-Sells :
    (w : World) (a : Submission) (s : Shop) (c : Cart) (pk : ℕ) {r : PlacedOrder × Shop}
    → IsAlone w
    → cart_of a.customer s ≡ some c
    → order_with_token a.checkout_token s.orders ≡ none
    → place_customer_order w a s ≡ ok r
    → UnusedIn s
    → UnusedIn r.1 × Sold pk (sum_of (units_wanted pk) (in_cart c s)) s.inventory r.1.inventory
place_customer_order-Sells w a s c pk {r} alone mine absent h unused =
    let n = place-NewOrder w a s c alone mine absent h in
    let v = n.written in
    let l = n.locked in
    let wanted = wanted-units pk w.call.today s n.shop c n.items v.lines v.valid l.lines in
    let ready : UnusedIn n.shop =
      subst (λ (x : Inventory). Unused n.shop.next_order_item x) (sym l.inventory)
        (subst (λ (k : ℕ). Unused k s.inventory) (sym l.next_order_item) unused) in
    let (last, sold) =
      completed-Sells w a pk c v.place v.lines (lines_subtotal v.lines) n.number v.order n.shop
        v.saved_shop alone n.inserted v.completed ready in
    let units = sum_of (group_sum (units_of pk)) (lines_by_store v.lines) in
    (
      last,
      subst (λ (n : ℕ). Sold pk n s.inventory r.1.inventory) wanted
          (subst (λ (x : Inventory). Sold pk units x r.1.inventory) l.inventory sold),
    )
