-- ===== src/Cart/Services.antt =====
-- cart/services.py: products are added to a cart, quantities are set, and lines are removed. The
-- price of a line is a snapshot; its times are left out.
use zuvi_web.Prelude.{
  ℕ, ◌+◌, Bool, false, not, ◌&&◌, Option, none, some, List, [], ◌∷◌, ◌++◌, any, select, find, map,
  ◌==◌, if◌then◌else◌,
}
use zuvi_web.Prelude.Text.{Text, text_eq}
use zuvi_web.Prelude.Effect.{
  Result, ok, err, bind, raise_when, Action, pure, lift, get, modify, or_raise, except_integrity,
  ◌>>=◌, ◌>>◌, validation, integrity, does_not_exist, product, customer, non_field_errors,
}
use zuvi_web.Catalog.{Product}
use zuvi_web.Inventory.Model.{product_row}
use zuvi_web.Catalog.Public.{is_public_row}
use zuvi_web.Cart.Quantity.{
  PostedQuantity, Quantity, parse_positive_quantity, ensure_quantity_within_stock, increased,
  clean_quantity,
}
use zuvi_web.Shop.{Shop, Cart, CartItem}
use zuvi_web.Cart.{get_or_create_cart_for_customer, touch_cart}

-- The keyword arguments that name a product: the key is read first.
pub data ProductKey : Type 0 where
  product_id : ℕ → ProductKey
  product_code : Text → ProductKey
  no_key : ProductKey

unfoldable pub find_product : ProductKey → List Product → Result (Option Product)
find_product (product_id pk) rows = ok (product_row pk rows)
find_product (product_code code) rows =
    ok (find (λ (p : Product). text_eq p.product_code code) rows)
find_product no_key rows = err (validation product)

abbrev pub if_public : (today : ℕ) → Shop → Option Product → Result Product
if_public today s none = err (validation product)
if_public today s (some p) =
    raise_when (not (is_public_row today s.stores p)) (validation product) (ok p)

unfoldable pub lock_public_product : (today : ℕ) → ProductKey → Action Shop Product
lock_public_product today sought = do
  s ← get
  lift (bind (find_product sought s.inventory.products) λ found. if_public today s found)

abbrev pub is_line : (cart good : ℕ) → CartItem → Bool
is_line cart good i = i.cart == cart && i.product == good

abbrev pub line_in : (cart good : ℕ) → List CartItem → Option CartItem
line_in cart good rows = find (is_line cart good) rows

-- `full_clean` of a line that is not in the table yet.
unfoldable pub new_line_full_clean : Cart → Product → Quantity → List CartItem → Result ℕ
new_line_full_clean c p q rows =
    bind (clean_quantity q)
      λ n. raise_when (any (is_line c.pk p.pk) rows) (validation non_field_errors) (ok n)

abbrev pub new_line : Cart → Product → ℕ → Shop → CartItem
new_line c p n s = record {
  pk = s.next_cart_item;
  cart = c.pk;
  product = p.pk;
  quantity = n;
  unit_price_snapshot = p.final_price;
}

abbrev pub with_line : Cart → Product → ℕ → Shop → Shop
with_line c p n s = record s {
  cart_items = s.cart_items ++ new_line c p n s ∷ [];
  next_cart_item = s.next_cart_item + 1;
}

-- `item.save()` of a new line, under the unique constraint of the table.
unfoldable pub insert_line : Cart → Product → ℕ → Action Shop CartItem
insert_line c p n s =
    if any (is_line c.pk p.pk) s.cart_items
    then err integrity
    else ok (new_line c p n s, with_line c p n s)

abbrev pub with_quantity : Product → ℕ → CartItem → CartItem
with_quantity p n i = record i { quantity = n; unit_price_snapshot = p.final_price }

abbrev pub rewritten : Product → (n pk : ℕ) → CartItem → CartItem
rewritten p n pk i = if i.pk == pk then with_quantity p n i else i

-- `item.save()` of a line that is in the table.
abbrev pub write_line : Product → (n pk : ℕ) → Shop → Shop
write_line p n pk s = record s { cart_items = map (rewritten p n pk) s.cart_items }

-- The new quantity is checked and saved with the price of the product.
unfoldable pub save_quantity : Product → Quantity → CartItem → Action Shop CartItem
save_quantity p q i = do
  lift (ensure_quantity_within_stock p q)
  n ← lift (clean_quantity q)
  modify (write_line p n i.pk)
  pure (with_quantity p n i)

-- What the call meets: the clock, and what other sessions commit before a new line is checked and
-- before it is written. The cart stays.
pub record Meanwhile : Type 0 where
  pub now : ℕ
  pub today : ℕ
  pub before_clean : Shop → Shop
  pub before_save : Shop → Shop

unfoldable pub merge_into_winner : Cart → Product → Quantity → Action Shop CartItem
merge_into_winner c p q = do
  s ← get
  i ← or_raise does_not_exist (line_in c.pk p.pk s.cart_items)
  save_quantity p (increased i.quantity q) i

unfoldable pub add_line :
    Meanwhile → Cart → Product → Quantity → Option CartItem → Action Shop CartItem
add_line w c p q none = do
  lift (ensure_quantity_within_stock p q)
  modify w.before_clean
  s ← get
  n ← lift (new_line_full_clean c p q s.cart_items)
  modify w.before_save
  except_integrity (insert_line c p n) (merge_into_winner c p q)
add_line w c p q (some i) = save_quantity p (increased i.quantity q) i

-- The caller is `none` where it is not a customer.
unfoldable pub add_product_to_cart :
    Meanwhile → Option ℕ → PostedQuantity → ProductKey → Action Shop CartItem
add_product_to_cart w who posted sought = do
  k ← or_raise (validation customer) who
  q ← lift (parse_positive_quantity posted)
  p ← lock_public_product w.today sought
  c ← get_or_create_cart_for_customer w.now k
  s ← get
  i ← add_line w c p q (line_in c.pk p.pk s.cart_items)
  modify (touch_cart w.now c.pk)
  pure i

abbrev cart_belongs : (who : ℕ) → Option Cart → Bool
cart_belongs who none = false
cart_belongs who (some c) = c.customer == who

abbrev pub cart_row : ℕ → List Cart → Option Cart
cart_row pk = find (λ c. c.pk == pk)

-- The filter of `portal_cart_items_queryset`.
unfoldable pub is_own_line : (who : ℕ) → List Cart → CartItem → Bool
is_own_line who carts i = cart_belongs who (cart_row i.cart carts)

unfoldable pub own_line : (who pk : ℕ) → Shop → Option CartItem
unfolding is_own_line
own_line who pk s = find (λ (i : CartItem). is_own_line who s.carts i && i.pk == pk) s.cart_items

unfoldable pub update_cart_item_quantity :
    Meanwhile → Option ℕ → (pk : ℕ) → PostedQuantity → Action Shop CartItem
update_cart_item_quantity w who pk posted = do
  k ← or_raise (validation customer) who
  q ← lift (parse_positive_quantity posted)
  s ← get
  i ← or_raise does_not_exist (own_line k pk s)
  p ← lock_public_product w.today (product_id i.product)
  j ← save_quantity p q i
  modify (touch_cart w.now i.cart)
  pure j

abbrev pub delete_line : ℕ → Shop → Shop
delete_line pk s = record s {
  cart_items = select (λ (i : CartItem). not (i.pk == pk)) s.cart_items;
}

-- The services return the cart, which the callers do not read.
unfoldable pub remove_cart_item : Meanwhile → Option ℕ → (pk : ℕ) → Action Shop (Unit {0})
remove_cart_item w who pk = do
  k ← or_raise (validation customer) who
  s ← get
  i ← or_raise does_not_exist (own_line k pk s)
  modify (delete_line i.pk)
  modify (touch_cart w.now i.cart)

abbrev pub delete_lines : (cart : ℕ) → Shop → Shop
delete_lines cart s = record s {
  cart_items = select (λ (i : CartItem). not (i.cart == cart)) s.cart_items;
}

unfoldable pub clear_cart : Meanwhile → Option ℕ → Action Shop (Unit {0})
clear_cart w who = do
  k ← or_raise (validation customer) who
  c ← get_or_create_cart_for_customer w.now k
  modify (delete_lines c.pk)
  modify (touch_cart w.now c.pk)
