-- ===== src/Orders/Checkout/Once.antt =====
-- A checkout token places one order, orders/checkout.py.
use zuvi_web.Prelude.{
  ℕ, ◌≡◌, sym, ap, ◌∙◌, false, some, List, [], ◌∷◌, ◌++◌, arith, find-append_new,
}
use zuvi_web.Prelude.Sort.{Group, members}
use zuvi_web.Prelude.Text.{Text, is_empty, text_eq, text_eq_refl}
use zuvi_web.Prelude.Effect.{ok, running, ran, and_then-eq-ok}
use zuvi_web.Orders.Numbers.{order_number_max_attempts}
use zuvi_web.Orders.Numbers.Fresh.{save_numbered-Saved}
use zuvi_web.Shop.{Shop, Cart, CartItem, PlacedOrder, PlacedStoreOrder}
use zuvi_web.Orders.Validation.{Submission, World, Line}
use zuvi_web.Orders.Checkout.{Fulfillment}
use zuvi_web.Orders.Checkout.OrderRow.{
  order_with_token, owned_order, lines_subtotal, get_existing_order_for_token, order_row,
  order_conflicts, insert_order, save_order,
}
use zuvi_web.Orders.Checkout.StoreRows.{insert_store_order}
use zuvi_web.Orders.Checkout.Placement.{
  first_store_status, first_status, empty_cart, lines_by_store, place_store_orders, complete_order,
  place_customer_order,
}
use zuvi_web.Orders.Checkout.Steps.{
  Found, Written, repeated, written, place-Placement, existing-eq-ok,
}
use zuvi_web.Orders.Checkout.Rows.{
  LinePlaced, StoreOrderPlaced, place_lines-keeps, place_store_orders-keeps,
}

-- Other sessions neither remove nor rewrite the order that this one has written and not committed.
pub record KeepsOrders (w : World) : Type 0 where
  pub keeps :
      (k : ℕ) (token : Text) (o : PlacedOrder) (s : Shop)
      → order_with_token token s.orders ≡ some o
      → order_with_token token (w.before_store_order k s).orders ≡ some o

abbrev Holds : Text → PlacedOrder → Shop → Type 0
Holds token o s = order_with_token token s.orders ≡ some o

module _ (w : World) (a : Submission) where
  saved-Holds :
      (f : Fulfillment) (n : ℕ) (s : Shop) (o : PlacedOrder) (t : Shop)
      → save_order w a f n s ≡ ok (some o, t)
      → Holds a.checkout_token o t × (o.order.customer ≡ a.customer)
  unfolding save_order insert_order order_row order_conflicts
  saved-Holds f n s o t h =
      let (number, u, _, free, inserted) =
        save_numbered-Saved _ _ _ _ (λ (q : Shop). Unit {0}) (λ k q p. tt) order_number_max_attempts
          0 s h tt in
      let new : PlacedOrder = order_row a f n u.next_order number in
      let same : o ≡ new = ap (λ (q : PlacedOrder × Shop). q.0) (sym inserted) in
      let rows : t.orders ≡ u.orders ++ new ∷ [] =
        ap (λ (q : PlacedOrder × Shop). q.1.orders) (sym inserted) in
      (
        ap (order_with_token a.checkout_token) rows
            ∙ find-append_new (λ (x : PlacedOrder). text_eq x.checkout_token a.checkout_token)
                u.orders new (ground (arith, free)) (text_eq_refl a.checkout_token)
            ∙ ap some (sym same),
        ap (λ (x : PlacedOrder). x.order.customer) same,
      )

  module _ (token : Text) (found : PlacedOrder) where
    line-Holds :
        (o : PlacedOrder) (so : PlacedStoreOrder) (l : Line) (s t : Shop)
        → LinePlaced w o so l s t
        → Holds token found s
        → Holds token found t
    line-Holds o so l s t placed h =
        ap (λ (q : Shop). order_with_token token q.orders) placed.result ∙ h

    store-Holds :
        (o : PlacedOrder) (f : Fulfillment) (g : Group Line) (s t : Shop)
        → StoreOrderPlaced w o f g (Holds token found) s t
        → Holds token found t
    unfolding insert_store_order first_store_status
    store-Holds o f g s t v =
        let start : Holds token found (first_store_status w v.row v.after) =
          ap (λ (q : PlacedStoreOrder × Shop). order_with_token token q.1.orders) (sym v.inserted)
          ∙ v.kept in
        place_lines-keeps w o v.row (Holds token found)
          (λ l q q' placed. line-Holds o v.row l q q' placed) (members g)
          (first_store_status w v.row v.after) v.filled start

    complete-Holds :
        (c : Cart) (f : Fulfillment) (lines : List Line) (o : PlacedOrder) (s : Shop)
        {r : PlacedOrder × Shop}
        → KeepsOrders w
        → complete_order w c f lines o s ≡ ok r
        → Holds token found s
        → (r.0 ≡ o) × Holds token found r.1
    unfolding complete_order first_status empty_cart
    complete-Holds c f lines o s {r} others h p =
        let h₁ = ran tt (first_status w o s) _ h in
        let (_, t, filled, h₂) =
          and_then-eq-ok (place_store_orders w o f (lines_by_store lines) (first_status w o s)) _
            h₁ in
        let h₃ = ran tt (empty_cart w.call.now c.pk t) _ h₂ in
        let same : r ≡ (o, empty_cart w.call.now c.pk t) = cc in
        let held =
          place_store_orders-keeps w o f (Holds token found)
            (λ k q p'. others.keeps k token found q p') (λ g q q' v. store-Holds o f g q q' v)
            (lines_by_store lines) (first_status w o s) filled p in
        (
          ap (λ (q : PlacedOrder × Shop). q.0) same,
          ap (λ (q : PlacedOrder × Shop). order_with_token token q.1.orders) same ∙ held,
        )

  written-Found :
      (c : Cart) (items : List CartItem) (s : Shop) {r : PlacedOrder × Shop}
      → KeepsOrders w
      → is_empty a.checkout_token ≡ false
      → Written w a c items s r
      → Found a r.0 r.1
  unfolding owned_order running
  written-Found c items s {r} others given v =
      let (held, mine) =
        saved-Holds v.place (lines_subtotal v.lines) s v.order v.saved_shop v.saved in
      let (same, there) =
        complete-Holds a.checkout_token v.order c v.place v.lines v.order v.saved_shop others
          v.completed held in
      record { given = given; owned = ground (arith, there, same, mine) }

-- An order is found under the token afterwards.
place-Found :
    (w : World) (a : Submission) (s : Shop) {r : PlacedOrder × Shop}
    → KeepsOrders w
    → place_customer_order w a s ≡ ok r
    → Found a r.0 r.1
unfolding place_customer_order
place-Found w a s others h =
    let (_, given, _, _) = existing-eq-ok a.customer a.checkout_token _ s h in
    elim (place-Placement w a (λ q. Unit {0}) (λ k q p. tt) s tt (λ c items u locked. tt) h) [
      | repeated found _ ↦ found
      | written c items u _ v ↦ written-Found w a c items u others given v
    ]

-- A checkout that returned can be sent again, with the same customer and token and whatever else the
-- form holds, by whatever session and whatever other sessions commit meanwhile: it returns the same
-- order and changes nothing. Other sessions are taken not to remove or rewrite an uncommitted order.
pub place_customer_order_once :
    (w w' : World) (a a' : Submission) (s : Shop) {r : PlacedOrder × Shop}
    → KeepsOrders w
    → a'.customer ≡ a.customer
    → a'.checkout_token ≡ a.checkout_token
    → place_customer_order w a s ≡ ok r
    → place_customer_order w' a' r.1 ≡ ok r
unfolding place_customer_order get_existing_order_for_token running
place_customer_order_once w w' a a' s others same_customer same_token h =
    let found = place-Found w a s others h in
    rw same_customer (rw same_token (ground (arith, found.given, found.owned)))
