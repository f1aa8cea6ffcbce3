-- ===== src/Cart/Presentation.antt =====
-- cart/services.py: what the page of a cart shows.
use zuvi_web.Prelude.{
  ℕ, Bool, true, false, ◌&&◌, Option, none, some, List, [], ◌∷◌, ◌++◌, any, select, map, leb, ltb,
  ◌==◌, if◌then◌else◌, sum_of, length, get_or,
}
use zuvi_web.Prelude.Sort.{Group, members, sort_by, group_by, group_sum}
use zuvi_web.Catalog.{Product}
use zuvi_web.Catalog.Public.{is_public_row}
use zuvi_web.Stores.{Store}
use zuvi_web.Inventory.Model.{product_row}
use zuvi_web.Shop.{Shop, Cart, CartItem, store_row}
use zuvi_web.Cart.{cart_of}
use zuvi_web.Cart.Services.{is_own_line}
use zuvi_web.Orders.Validation.{line_amount}

-- A line with its product and its store.
pub record PortalLine : Type 0 where
  pub item : CartItem
  pub product : Product
  pub store : Store

abbrev with_store : CartItem → Product → Option Store → Option PortalLine
with_store i p none = none
with_store i p (some store) = some (record { item = i; product = p; store = store })

abbrev with_product : List Store → CartItem → Option Product → Option PortalLine
with_product stores i none = none
with_product stores i (some p) = with_store i p (store_row p.store stores)

-- The joins of the query: neither key may be null.
unfoldable pub joined : Shop → CartItem → Option PortalLine
joined s i = with_product s.stores i (product_row i.product s.inventory.products)

abbrev pub cons_some {ℓ} : {A : Type ℓ} → Option A → List A → List A
cons_some none xs = xs
cons_some (some x) xs = x ∷ xs

abbrev pub joined_all : Shop → List CartItem → List PortalLine
joined_all s [] = []
joined_all s (i ∷ items) = cons_some (joined s i) (joined_all s items)

unfoldable pub portal_cart_items : (who : ℕ) → Shop → List PortalLine
unfolding joined is_own_line
portal_cart_items who s = joined_all s (select (is_own_line who s.carts) s.cart_items)

unfoldable pub publicly_available_product_ids : (today : ℕ) → Shop → List ℕ → List ℕ
publicly_available_product_ids today s ids =
    map (λ (p : Product). p.pk)
      (select (λ (p : Product). any (λ k. k == p.pk) ids && is_public_row today s.stores p)
        s.inventory.products)

pub data Warning : Type 0 where
  no_longer_available : Warning
  price_changed : (snapshot : ℕ) → (current : Option ℕ) → Warning
  short_stock : (stock quantity : ℕ) → Warning

abbrev same_price : ℕ → Option ℕ → Bool
same_price n none = false
same_price n (some m) = n == m

abbrev price_warning : (snapshot current : Option ℕ) → List Warning
price_warning none current = []
price_warning (some n) current = if same_price n current then [] else price_changed n current ∷ []

abbrev stock_warning : (quantity stock : ℕ) → List Warning
stock_warning q stock = if ltb stock q then short_stock stock q ∷ [] else []

abbrev total_within : Option ℕ → (quantity stock : ℕ) → Option ℕ
total_within none q stock = none
total_within (some price) q stock = if leb q stock then some (line_amount price q) else none

pub record Presentation : Type 0 where
  pub line : PortalLine
  pub line_total : Option ℕ
  pub is_available : Bool
  pub warnings : List Warning

unfoldable pub build_cart_item_presentation : (available : List ℕ) → PortalLine → Presentation
build_cart_item_presentation available l =
    let shown = any (λ k. k == l.product.pk) available in
    record {
      line = l;
      line_total =
          if shown
          then total_within l.product.final_price l.item.quantity l.product.stock_quantity
          else none;
      is_available = shown;
      warnings =
          if shown
          then price_warning l.item.unit_price_snapshot l.product.final_price
            ++ stock_warning l.item.quantity l.product.stock_quantity
          else no_longer_available ∷ [];
    }

abbrev pub total_of : Presentation → ℕ
total_of r = get_or 0 r.line_total

abbrev is_nonempty : List Warning → Bool
is_nonempty [] = false
is_nonempty (_ ∷ _) = true

abbrev pub is_warned : Presentation → Bool
is_warned r = is_nonempty r.warnings

pub record StoreGroup : Type 0 where
  pub store_id : ℕ
  pub items : List Presentation
  pub preview_subtotal : ℕ

pub record CartView : Type 0 where
  pub cart : Option Cart
  pub items : List Presentation
  pub store_groups : List StoreGroup
  pub item_count : ℕ
  pub preview_subtotal : ℕ
  pub has_warnings : Bool
  pub is_empty : Bool

-- The lines of one store have one name of a store too, so that the runs are those of its key.
abbrev pub groups_of : List Presentation → List (Group Presentation)
groups_of = group_by (λ (r : Presentation). r.line.store.pk)

abbrev shown_group : Group Presentation → StoreGroup
shown_group g = record {
  store_id = g.key;
  items = members g;
  preview_subtotal = sum_of total_of (members g);
}

abbrev no_presentations : List Presentation → Bool
no_presentations [] = true
no_presentations (_ ∷ _) = false

abbrev filled_view : Option Cart → List Presentation → CartView
filled_view c rows = record {
  cart = c;
  items = rows;
  store_groups = map shown_group (groups_of rows);
  item_count = length rows;
  preview_subtotal = sum_of (group_sum total_of) (groups_of rows);
  has_warnings = any (λ g. any is_warned (members g)) (groups_of rows);
  is_empty = no_presentations rows;
}

-- `le` is the order of the query: the names of stores and products are ordered by the database.
unfoldable pub presentations :
    (today : ℕ) → (PortalLine → PortalLine → Bool) → (who : ℕ) → Shop → List Presentation
unfolding build_cart_item_presentation publicly_available_product_ids portal_cart_items sort_by
presentations today le who s =
    let lines = sort_by le (portal_cart_items who s) in
    let ids = map (λ (l : PortalLine). l.item.product) lines in
    map (build_cart_item_presentation (publicly_available_product_ids today s ids)) lines

abbrev pub view_of :
    (today : ℕ) → (PortalLine → PortalLine → Bool) → (who : ℕ) → Shop → Option Cart → CartView
view_of today le who s none = filled_view none []
view_of today le who s (some c) = filled_view (some c) (presentations today le who s)

unfoldable pub build_cart_view_context :
    (today : ℕ) → (PortalLine → PortalLine → Bool) → (who : ℕ) → Shop → CartView
unfolding presentations group_by
build_cart_view_context today le who s = view_of today le who s (cart_of who s)
