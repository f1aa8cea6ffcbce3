-- ===== src/Orders/Checkout/Begins.antt =====
-- The life of an order begins at checkout: orders/checkout.py and the services of orders/ that come
-- after it.
use zuvi_web.Prelude.{
  ℕ, ◌<◌, ◌≡◌, refl, sym, ap, ◌∙◌, subst, Bool, none, some, List, [], ◌∷◌, ◌++◌, any, select, map,
  All, ◌==◌, arith,
}
use zuvi_web.Prelude.Effect.{ok}
use zuvi_web.Orders.Model.{StoreOrderStatus, StoreOrder, OrderItem, OrderGraph}
use zuvi_web.Orders.Lifecycle.{ApartRows, IsConsistent}
use zuvi_web.Orders.Lifecycle.Reachable.{IsFresh, Reachable, Reachable-IsConsistent}
use zuvi_web.Shop.{Shop, Cart, PlacedOrder, PlacedStoreOrder, PlacedItem}
use zuvi_web.Cart.{cart_of}
use zuvi_web.Orders.Validation.{Submission, World}
use zuvi_web.Orders.Checkout.OrderRow.{order_with_token}
use zuvi_web.Orders.Checkout.Placement.{place_customer_order}
use zuvi_web.Orders.Checkout.Amounts.{IsNew, store_row_of}
use zuvi_web.Orders.Checkout.Locks.{IsAlone}
use zuvi_web.Orders.Checkout.Completed.{Receipt}
use zuvi_web.Orders.Checkout.Receipt.{place_customer_order-Receipt}

abbrev of_order : PlacedOrder → PlacedStoreOrder → Bool
of_order o so = so.order == o.pk

abbrev pub store_orders_of : PlacedOrder → Shop → List PlacedStoreOrder
store_orders_of o s = select (of_order o) s.store_orders

abbrev pub item_of : PlacedItem → OrderItem
item_of i = i.item

abbrev pub items_of : List PlacedStoreOrder → List PlacedItem → List PlacedItem
items_of rows items =
    select
      (λ (i : PlacedItem). any (λ (so : PlacedStoreOrder). so.row.pk == i.item.store_order) rows)
      items

-- The rows that `_lock_order_graph` of orders/cancellation.py locks, with histories that begin after
-- the first status.
unfoldable pub order_graph : PlacedOrder → Shop → OrderGraph
order_graph o s = record {
  order = o.order;
  store_orders = map store_row_of (store_orders_of o s);
  order_items = map item_of (items_of (store_orders_of o s) s.order_items);
  status_history = [];
  payment_history = [];
  store_status_history = [];
  inventory = s.inventory;
}

-- Every store order belongs to an order that has a key already.
abbrev pub IsKeyed : Shop → Type 0
IsKeyed s = All (λ (so : PlacedStoreOrder). so.order < s.next_order) s.store_orders

select-new :
    (o : PlacedOrder) (news : List PlacedStoreOrder)
    → All (IsNew o) news
    → select (of_order o) news ≡ news
select-new o [] all = refl
select-new o (so ∷ news) all = ground (arith, all.0.mine, select-new o news all.1)

pub select-append :
    (o : PlacedOrder) (olds news : List PlacedStoreOrder)
    → All (λ (so : PlacedStoreOrder). so.order < o.pk) olds
    → All (IsNew o) news
    → select (of_order o) (olds ++ news) ≡ news
select-append o [] news below all = select-new o news all
select-append o (so ∷ olds) news below all =
    ground (arith, below.0, select-append o olds news below.1 all)

-- The store orders of a new order are those of its receipt.
pub Receipt-store_orders :
    (c : Cart) (s : Shop) (o : PlacedOrder) (t : Shop) (v : Receipt c s o t)
    → IsKeyed s
    → store_orders_of o t ≡ v.news
Receipt-store_orders c s o t v keyed =
    ap (select (of_order o)) v.store_orders
    ∙ select-append o s.store_orders v.news
        (subst (λ (k : ℕ). All (λ (so : PlacedStoreOrder). so.order < k) s.store_orders)
          (sym v.keyed) keyed)
        v.new

all-pending :
    (o : PlacedOrder) (news : List PlacedStoreOrder)
    → All (IsNew o) news
    → All (λ (so : StoreOrder). so.status ≡ StoreOrderStatus.pending) (map store_row_of news)
all-pending o [] all = tt
all-pending o (so ∷ news) all = (all.0.pending, all-pending o news all.1)

Receipt-IsFresh :
    (c : Cart) (s : Shop) (o : PlacedOrder) (t : Shop)
    → Receipt c s o t
    → IsKeyed s
    → IsFresh (order_graph o t)
unfolding order_graph
Receipt-IsFresh c s o t v keyed =
    let rows = ap (map store_row_of) (Receipt-store_orders c s o t v keyed) in
    record {
      placed = v.placed;
      unpaid = v.unpaid;
      waiting =
          subst (All (λ (so : StoreOrder). so.status ≡ StoreOrderStatus.pending)) (sym rows)
            (all-pending o v.news v.new);
      apart = subst ApartRows (sym rows) v.apart;
    }

-- The order that a checkout has written is consistent from then on, whatever calls of the services
-- of an order return, by stores, the customer and administrators: where no order was under the token,
-- no other session was between, and every store order belonged to an order with a key in use.
pub place_customer_order-IsConsistent :
    (w : World) (a : Submission) (s : Shop) (c : Cart) {r : PlacedOrder × Shop} {h : OrderGraph}
    → IsAlone w
    → cart_of a.customer s ≡ some c
    → order_with_token a.checkout_token s.orders ≡ none
    → place_customer_order w a s ≡ ok r
    → IsKeyed s
    → Reachable (order_graph r.0 r.1) h
    → IsConsistent h.order h.store_orders
place_customer_order-IsConsistent w a s c {r} {h} alone mine unused run keyed reached =
    Reachable-IsConsistent (order_graph r.0 r.1) h
      (Receipt-IsFresh c s r.0 r.1 (place_customer_order-Receipt w a s c alone mine unused run)
        keyed)
      reached
