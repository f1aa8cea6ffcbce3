-- ===== src/Orders/Checkout/Locks.antt =====
-- What a checkout has under its locks, orders/checkout.py.
use zuvi_web.Prelude.{ℕ, ◌≡◌, refl, sym, ap, ◌∙◌, subst, Option, none, some, List, select, ◌==◌}
use zuvi_web.Prelude.Sort.{sort_by}
use zuvi_web.Prelude.Effect.{ok, running}
use zuvi_web.Shop.{Shop, Cart, CartItem}
use zuvi_web.Cart.{cart_of, or_new_cart, get_or_create_cart_for_customer}
use zuvi_web.Orders.Validation.{World, by_product, lock_cart_items}

-- No other session commits during the call.
pub record IsAlone (w : World) : Type 0 where
  pub lock : (s : Shop) → w.before_lock s ≡ s
  pub order : (k : ℕ) (s : Shop) → w.before_order k s ≡ s
  pub store_order : (k : ℕ) (s : Shop) → w.before_store_order k s ≡ s

-- The shop `u` under the locks, with the customer's cart `c` and its lines.
pub record Locked (customer : ℕ) (s : Shop) (c : Cart) (items : List CartItem) (u : Shop)
    : Type 0 where
  pub lines : items ≡ sort_by by_product (select (λ (i : CartItem). i.cart == c.pk) s.cart_items)
  pub owner : (d : Cart) → cart_of customer s ≡ some d → c ≡ d
  pub cart_items : u.cart_items ≡ s.cart_items
  pub orders : u.orders ≡ s.orders
  pub store_orders : u.store_orders ≡ s.store_orders
  pub order_items : u.order_items ≡ s.order_items
  pub inventory : u.inventory ≡ s.inventory
  pub next_order : u.next_order ≡ s.next_order
  pub next_store_order : u.next_store_order ≡ s.next_store_order
  pub next_order_item : u.next_order_item ≡ s.next_order_item

pub lock-Locked :
    (now customer : ℕ) (found : Option Cart) (s : Shop)
    → cart_of customer s ≡ found
    → let q = or_new_cart now customer found s in
      Locked customer s q.0
        (sort_by by_product (select (λ (i : CartItem). i.cart == q.0.pk) s.cart_items))
        q.1
lock-Locked now customer none s e = record {
  lines = refl;
  owner = λ d mine. cc;
  cart_items = refl;
  orders = refl;
  store_orders = refl;
  order_items = refl;
  inventory = refl;
  next_order = refl;
  next_store_order = refl;
  next_order_item = refl;
}
lock-Locked now customer (some c) s e = record {
  lines = refl;
  owner = λ d mine. cc;
  cart_items = refl;
  orders = refl;
  store_orders = refl;
  order_items = refl;
  inventory = refl;
  next_order = refl;
  next_store_order = refl;
  next_order_item = refl;
}

pub lines-locked :
    (now customer : ℕ) (found : Option Cart) (s : Shop)
    → let q = or_new_cart now customer found s in
      sort_by by_product (select (λ (i : CartItem). i.cart == q.0.pk) q.1.cart_items)
      ≡ sort_by by_product (select (λ (i : CartItem). i.cart == q.0.pk) s.cart_items)
lines-locked now customer none s = refl
lines-locked now customer (some c) s = refl

pub lock_cart_items-Locked :
    (w : World) (customer : ℕ) (s : Shop) {r : (Cart × List CartItem) × Shop}
    → w.before_lock s ≡ s
    → lock_cart_items w customer s ≡ ok r
    → Locked customer s r.0.0 r.0.1 r.1
unfolding lock_cart_items get_or_create_cart_for_customer running
lock_cart_items-Locked w customer s {r} alone h =
    let q = or_new_cart w.call.now customer (cart_of customer s) s in
    let items = sort_by by_product (select (λ (i : CartItem). i.cart == q.0.pk) s.cart_items) in
    let runs : lock_cart_items w customer s
        ≡ ok (
          (q.0, sort_by by_product (select (λ (i : CartItem). i.cart == q.0.pk) q.1.cart_items)),
          q.1,
        ) =
      ap
        (λ (v : Shop).
          let p = or_new_cart w.call.now customer (cart_of customer v) v in
          let rows =
            sort_by by_product (select (λ (i : CartItem). i.cart == p.0.pk) p.1.cart_items) in
          ok ((p.0, rows), p.1))
        alone in
    let same : r ≡ (
      (q.0, sort_by by_product (select (λ (i : CartItem). i.cart == q.0.pk) q.1.cart_items)),
      q.1,
    ) =
      cc in
    let same' : r ≡ ((q.0, items), q.1) =
      same
      ∙ ap (λ (l : List CartItem). ((q.0, l), q.1))
          (lines-locked w.call.now customer (cart_of customer s) s) in
    subst (λ (x : (Cart × List CartItem) × Shop). Locked customer s x.0.0 x.0.1 x.1) (sym same')
      (lock-Locked w.call.now customer (cart_of customer s) s refl)
