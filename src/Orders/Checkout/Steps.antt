-- ===== src/Orders/Checkout/Steps.antt =====
-- The steps of a placement that returned, orders/checkout.py.
use zuvi_web.Prelude.{
  ℕ, ◌≡◌, sym, subst, Bool, true, false, Option, none, some, List, ◌⊎◌, inl, inr,
}
use zuvi_web.Prelude.Text.{Text, is_empty}
use zuvi_web.Prelude.Effect.{
  Action, ok, and_then, ran, validation, cart, checkout_token, raise_if-eq-ok, lift-eq-ok,
  check-eq-ok, and_then-eq-ok, lifted,
}
use zuvi_web.Orders.Numbers.{order_number_max_attempts}
use zuvi_web.Orders.Numbers.Fresh.{save_numbered-Saved}
use zuvi_web.Shop.{Shop, Cart, CartItem, PlacedOrder}
use zuvi_web.Orders.Validation.{
  Submission, World, Line, lock_cart_items, lock_products_for_items, build_validated_lines,
}
use zuvi_web.Orders.Checkout.{Fulfillment, store_ids, resolve_fulfillment}
use zuvi_web.Orders.Checkout.OrderRow.{
  order_with_token, owned_order, get_existing_order_for_token, lines_subtotal, order_full_clean,
  save_order, winning_order, saved_or_winning, create_order_row,
}
use zuvi_web.Orders.Checkout.Placement.{
  complete_order, complete_unless, is_nil, place_new, place_locked, place_customer_order,
  unless_placed,
}

-- The order under the token of `a`, which is its customer's.
pub record Found (a : Submission) (o : PlacedOrder) (s : Shop) : Type 0 where
  pub given : is_empty a.checkout_token ≡ false
  pub owned : owned_order a.customer (order_with_token a.checkout_token s.orders) ≡ ok (some o)

pub existing-eq-ok :
    {B : Type 0} (customer : ℕ) (token : Text) (f : Option PlacedOrder → Action Shop B) (s : Shop)
    {b : B × Shop}
    → and_then (get_existing_order_for_token customer token s) f ≡ ok b
    → (e : Option PlacedOrder) × (is_empty token ≡ false)
      × (owned_order customer (order_with_token token s.orders) ≡ ok e)
      × (f e s ≡ ok b)
unfolding get_existing_order_for_token
existing-eq-ok customer token f s {b} h =
    let (e, u, first, rest) = and_then-eq-ok (get_existing_order_for_token customer token s) f h in
    let (given, h₁) = raise_if-eq-ok (is_empty token) (validation checkout_token) _ s first in
    let h₂ = ran s s _ h₁ in
    let (looked, same) = lifted (owned_order customer (order_with_token token s.orders)) s h₂ in
    (e, given, looked, subst (λ (t : Shop). f e t ≡ ok b) same rest)

-- What a placement under the lock does, when it writes an order.
pub record Written (w : World) (a : Submission) (c : Cart) (items : List CartItem) (s : Shop)
    (r : PlacedOrder × Shop) : Type 0 where
  pub lines : List Line
  pub place : Fulfillment
  pub filled : is_nil items ≡ false
  pub valid : build_validated_lines w.call.today s items ≡ ok lines
  pub resolved : resolve_fulfillment a (store_ids lines) s ≡ ok place
  pub clean : order_full_clean a place (lines_subtotal lines) s.orders ≡ ok tt
  pub order : PlacedOrder
  pub saved_shop : Shop
  pub saved : save_order w a place (lines_subtotal lines) s ≡ ok (some order, saved_shop)
  pub completed : complete_order w c place lines order saved_shop ≡ ok r

-- A row came from another request, or this one wrote it. `P` is what the other sessions keep.
abbrev Created :
    World
    → Submission
    → Fulfillment
    → ℕ
    → Shop
    → (Shop → Type 0)
    → (PlacedOrder × Bool) × Shop
    → Type 0
Created w a f n s P ((o, true), t) = Found a o t × P t
Created w a f n s P ((o, false), t) = save_order w a f n s ≡ ok (some o, t)

-- A placement ends with an order under its token that was there, or writes one under the lock.
pub data Placement (w : World) (a : Submission) (P : Shop → Type 0) (s : Shop)
    (r : PlacedOrder × Shop) : Type 0 where
  repeated : Found a r.0 r.1 → P r.1 → Placement w a P s r
  written :
      (c : Cart) (items : List CartItem) (u : Shop)
      → lock_cart_items w a.customer s ≡ ok ((c, items), u)
      → Written w a c items u r
      → Placement w a P s r

module _ (w : World) (a : Submission) (P : Shop → Type 0)
    (others : (k : ℕ) (s : Shop) → P s → P (w.before_order k s)) where
  module _ (f : Fulfillment) (n : ℕ) (s : Shop) where
    winning-Created :
        (e : Option PlacedOrder) (u : Shop) {r : (PlacedOrder × Bool) × Shop}
        → is_empty a.checkout_token ≡ false
        → P u
        → owned_order a.customer (order_with_token a.checkout_token u.orders) ≡ ok e
        → winning_order a e u ≡ ok r
        → Created w a f n s P r
    unfolding winning_order
    winning-Created none u given p looked h = cc
    winning-Created (some o) u {r} given p looked h =
        let same : r ≡ ((o, true), u) = cc in
        subst (Created w a f n s P) (sym same) (record { given = given; owned = looked }, p)

    saved-Created :
        (q : Option PlacedOrder) (u : Shop) {r : (PlacedOrder × Bool) × Shop}
        → save_order w a f n s ≡ ok (q, u)
        → P s
        → saved_or_winning a q u ≡ ok r
        → Created w a f n s P r
    unfolding saved_or_winning save_order
    saved-Created (some o) u {r} saved p h =
        let same : r ≡ ((o, false), u) = cc in subst (Created w a f n s P) (sym same) saved
    saved-Created none u saved p h =
        let (e, given, looked, won) = existing-eq-ok a.customer a.checkout_token _ u h in
        let kept : P u =
          save_numbered-Saved _ _ _ _ P others order_number_max_attempts 0 s saved p in
        winning-Created e u given kept looked won

    create-Created :
        {r : (PlacedOrder × Bool) × Shop}
        → create_order_row w a f n s ≡ ok r
        → P s
        → (order_full_clean a f n s.orders ≡ ok tt) × Created w a f n s P r
    unfolding create_order_row
    create-Created h p =
        let (clean, h₁) = check-eq-ok (order_full_clean a f n s.orders) _ s (ran s s _ h) in
        let (q, u, saved, h₂) = and_then-eq-ok (save_order w a f n s) _ h₁ in
        (clean, saved-Created q u saved p h₂)

  complete-cases :
      (c : Cart) (f : Fulfillment) (lines : List Line) (s : Shop) (q : PlacedOrder × Bool)
      (t : Shop) {r : PlacedOrder × Shop}
      → Created w a f (lines_subtotal lines) s P (q, t)
      → complete_unless w c f lines q t ≡ ok r
      → (Found a r.0 r.1 × P r.1)
        ⊎ ((o : PlacedOrder) × (save_order w a f (lines_subtotal lines) s ≡ ok (some o, t))
            × (complete_order w c f lines o t ≡ ok r))
  unfolding complete_unless
  complete-cases c f lines s (o, true) t {r} found h =
      let same : r ≡ (o, t) = cc in
      inl (subst (λ (k : PlacedOrder × Shop). Found a k.0 k.1 × P k.1) (sym same) found)
  complete-cases c f lines s (o, false) t saved h = inr (o, saved, h)

  -- A placement under the lock returns the order that another request wrote, or writes one.
  new-cases :
      (c : Cart) (items : List CartItem) (s : Shop) {r : PlacedOrder × Shop}
      → place_new w a c items s ≡ ok r
      → P s
      → (Found a r.0 r.1 × P r.1) ⊎ Written w a c items s r
  unfolding place_new
  new-cases c items s {r} h p =
      let (filled, h₁) = raise_if-eq-ok (is_nil items) (validation cart) _ s h in
      let h₂ = ran s s _ h₁ in
      let (_, h₃) = check-eq-ok (lock_products_for_items s.inventory.products items) _ s h₂ in
      let (lines, valid, h₄) = lift-eq-ok (build_validated_lines w.call.today s items) _ s h₃ in
      let (f, resolved, h₅) = lift-eq-ok (resolve_fulfillment a (store_ids lines) s) _ s h₄ in
      let (q, t, created, h₆) =
        and_then-eq-ok (create_order_row w a f (lines_subtotal lines) s) _ h₅ in
      let (clean, how) = create-Created f (lines_subtotal lines) s created p in
      elim (complete-cases c f lines s q t how h₆) [
        | inl found ↦ inl found
        | inr (o, saved, completed) ↦ inr (record {
          lines = lines;
          place = f;
          filled = filled;
          valid = valid;
          resolved = resolved;
          clean = clean;
          order = o;
          saved_shop = t;
          saved = saved;
          completed = completed;
        })
      ]

  module _ (s : Shop) (start : P s)
      (locks : (c : Cart) (items : List CartItem) (u : Shop)
        → lock_cart_items w a.customer s ≡ ok ((c, items), u)
        → P u) where
    unless-Placement :
        (e : Option PlacedOrder) (m : Action Shop PlacedOrder) (u : Shop) {r : PlacedOrder × Shop}
        → is_empty a.checkout_token ≡ false
        → P u
        → owned_order a.customer (order_with_token a.checkout_token u.orders) ≡ ok e
        → (m u ≡ ok r → Placement w a P s r)
        → unless_placed e m u ≡ ok r
        → Placement w a P s r
    unless-Placement none m u given p looked later h = later h
    unless-Placement (some o) m u {r} given p looked later h =
        let same : r ≡ (o, u) = cc in
        subst (Placement w a P s) (sym same) (repeated (record { given = given; owned = looked }) p)

    place_new-Placement :
        (c : Cart) (items : List CartItem) (u : Shop) {r : PlacedOrder × Shop}
        → lock_cart_items w a.customer s ≡ ok ((c, items), u)
        → place_new w a c items u ≡ ok r
        → Placement w a P s r
    place_new-Placement c items u locked h = elim (new-cases c items u h (locks c items u locked)) [
      | inl (found, p) ↦ repeated found p
      | inr new ↦ written c items u locked new
    ]

    place_locked-Placement :
        {r : PlacedOrder × Shop} → place_locked w a s ≡ ok r → Placement w a P s r
    unfolding place_locked
    place_locked-Placement h =
        let (q, u, locked, h₁) = and_then-eq-ok (lock_cart_items w a.customer s) _ h in
        let (e, given, looked, h₂) = existing-eq-ok a.customer a.checkout_token _ u h₁ in
        unless-Placement e (place_new w a q.0 q.1) u given (locks q.0 q.1 u locked) looked
          (λ h'. place_new-Placement q.0 q.1 u locked h') h₂

    pub place-Placement :
        {r : PlacedOrder × Shop} → place_customer_order w a s ≡ ok r → Placement w a P s r
    unfolding place_customer_order
    place-Placement h =
        let (e, given, looked, h₁) = existing-eq-ok a.customer a.checkout_token _ s h in
        unless-Placement e (place_locked w a) s given start looked (λ h'. place_locked-Placement h')
          h₁
