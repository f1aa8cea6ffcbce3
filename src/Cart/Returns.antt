-- ===== src/Cart/Returns.antt =====
-- cart/services.py: when `add_product_to_cart` returns.
use zuvi_web.Prelude.{
  ℕ, zero, suc, ◌+◌, ◌-◌, ◌*◌, ◌^◌, ◌<◌, ◌≤◌, ◌≡◌, refl, sym, subst, ap, ◌∙◌, true, false, Option,
  none, some, List, [], ◌∷◌, any, arith,
}
use zuvi_web.Prelude.Effect.{
  ok, Action, bind, raise_when, and_then, lift, or_raise, except_integrity, modify, pure, ◌>>◌,
}
use zuvi_web.Catalog.{Product}
use zuvi_web.Catalog.Public.{is_public_row}
use zuvi_web.Inventory.Movement.{max_units}
use zuvi_web.Shop.{Shop, Cart, CartItem}
use zuvi_web.Cart.{cart_of, or_new_cart, get_or_create_cart_for_customer, touch_cart}
use zuvi_web.Cart.Quantity.{
  Quantity, finite, PostedQuantity, parse_positive_quantity, more_than,
  ensure_quantity_within_stock, increased, clean_quantity,
}
use zuvi_web.Cart.Services.{
  ProductKey, find_product, lock_public_product, is_line, line_in, new_line, with_line,
  new_line_full_clean, insert_line, with_quantity, write_line, save_quantity, Meanwhile, add_line,
  add_product_to_cart, merge_into_winner,
}
use zuvi_web.Cart.Added.{new_cart-lines}
use zuvi_web.Cart.Rows.{amount}
use zuvi_web.Cart.Elsewhere.{IsAlone}

-- The sum of `m` thousandths and `digits / 10 ^ places`.
abbrev pub total : (m digits places : ℕ) → ℕ
total m digits places = m + digits * 10 ^ (3 - places)

within-clean :
    (m d places stock : ℕ)
    → places ≤ 3
    → total m d places ≤ stock
    → stock < max_units
    → (more_than (increased m (finite d places)) stock ≡ false)
      × (clean_quantity (increased m (finite d places)) ≡ ok (total m d places))
unfolding more_than increased clean_quantity raise_when
within-clean m d zero stock h g k = ground arith
within-clean m d (suc zero) stock h g k = ground arith
within-clean m d (suc (suc zero)) stock h g k = ground arith
within-clean m d (suc (suc (suc zero))) stock h g k = ground arith
within-clean m d (suc (suc (suc (suc places)))) stock h g k = ground arith

first-clean :
    (d places stock : ℕ)
    → places ≤ 3
    → total 0 d places ≤ stock
    → stock < max_units
    → (more_than (finite d places) stock ≡ false)
      × (clean_quantity (finite d places) ≡ ok (total 0 d places))
unfolding more_than clean_quantity raise_when
first-clean d zero stock h g k = ground arith
first-clean d (suc zero) stock h g k = ground arith
first-clean d (suc (suc zero)) stock h g k = ground arith
first-clean d (suc (suc (suc zero))) stock h g k = ground arith
first-clean d (suc (suc (suc (suc places)))) stock h g k = ground arith

save-returns :
    (p : Product) (q : Quantity) (i : CartItem) (n : ℕ) (s : Shop)
    → (more_than q p.stock_quantity ≡ false) × (clean_quantity q ≡ ok n)
    → save_quantity p q i s ≡ ok (with_quantity p n i, write_line p n i.pk s)
unfolding save_quantity ensure_quantity_within_stock raise_when lift and_then
save-returns p q i n s h = rw (h.0, h.1)

none-absent :
    (c : Cart) (p : Product) (rows : List CartItem)
    → line_in c.pk p.pk rows ≡ none
    → any (is_line c.pk p.pk) rows ≡ false
none-absent c p [] h = refl
none-absent c p (i ∷ rows) h = ground (arith, none-absent c p rows)

insert-returns :
    (c : Cart) (p : Product) (n : ℕ) (handler : Action Shop CartItem) (s : Shop)
    → any (is_line c.pk p.pk) s.cart_items ≡ false
    → except_integrity (insert_line c p n) handler s ≡ ok (new_line c p n s, with_line c p n s)
unfolding except_integrity insert_line
insert-returns c p n handler s free = rw (except_integrity, insert_line, free)

new-returns :
    (w : Meanwhile) (c : Cart) (p : Product) (q : Quantity) (n : ℕ) (s : Shop)
    → IsAlone w
    → any (is_line c.pk p.pk) s.cart_items ≡ false
    → (more_than q p.stock_quantity ≡ false) × (clean_quantity q ≡ ok n)
    → add_line w c p q none s ≡ ok (new_line c p n s, with_line c p n s)
unfolding add_line ensure_quantity_within_stock new_line_full_clean bind raise_when lift and_then
new-returns w c p q n s alone free h =
    rw (h.0, alone.cleaning s, h.1, free, alone.saving s)
      (insert-returns c p n (merge_into_winner c p q) s free)

add_line-returns :
    (w : Meanwhile) (c : Cart) (p : Product) (d places : ℕ) (s : Shop) (found : Option CartItem)
    → IsAlone w
    → line_in c.pk p.pk s.cart_items ≡ found
    → places ≤ 3
    → total (amount found) d places ≤ p.stock_quantity
    → p.stock_quantity < max_units
    → (r : CartItem × Shop) × (add_line w c p (finite d places) found s ≡ ok r)
      × (r.0.quantity ≡ total (amount found) d places)
unfolding add_line
add_line-returns w c p d places s (some i) alone found h g k = (
  _,
  save-returns p (increased i.quantity (finite d places)) i (total i.quantity d places) s
      (within-clean i.quantity d places p.stock_quantity h g k),
  refl,
)
add_line-returns w c p d places s none alone found h g k = (
  _,
  new-returns w c p (finite d places) (total 0 d places) s alone
      (none-absent c p s.cart_items found) (first-clean d places p.stock_quantity h g k),
  refl,
)

-- The call comes to the line of the product.
add-runs :
    (w : Meanwhile) (who : ℕ) (posted : PostedQuantity) (sought : ProductKey) (s : Shop)
    (q : Quantity) (p : Product)
    → parse_positive_quantity posted ≡ ok q
    → find_product sought s.inventory.products ≡ ok (some p)
    → is_public_row w.today s.stores p ≡ true
    → let made = or_new_cart w.now who (cart_of who s) s in
      add_product_to_cart w (some who) posted sought s
      ≡ and_then
          (add_line w made.0 p q (line_in made.0.pk p.pk made.1.cart_items) made.1)
          (λ i. modify (touch_cart w.now made.0.pk) >> pure i)
unfolding add_product_to_cart lock_public_product get_or_create_cart_for_customer bind raise_when
    lift or_raise and_then
add-runs w who posted sought s q p read found sold = rw (read, found, sold)

-- A call of `add_product_to_cart` by a customer returns where the posted quantity is a number above 0
-- of at most three places, the product is found by its key and public, and the stock, which fits its
-- field, is not less than the quantity together with what the customer's cart has of the product; the
-- line then has these two quantities in all. No other session is between.
pub add_product_to_cart-returns :
    (w : Meanwhile) (who : ℕ) (posted : PostedQuantity) (sought : ProductKey) (s : Shop)
    (d places : ℕ) (p : Product)
    → IsAlone w
    → parse_positive_quantity posted ≡ ok (finite d places)
    → places ≤ 3
    → find_product sought s.inventory.products ≡ ok (some p)
    → is_public_row w.today s.stores p ≡ true
    → p.stock_quantity < max_units
    → let c = (or_new_cart w.now who (cart_of who s) s).0 in
      total (amount (line_in c.pk p.pk s.cart_items)) d places ≤ p.stock_quantity
      → (r : CartItem × Shop) × (add_product_to_cart w (some who) posted sought s ≡ ok r)
        × (r.0.quantity ≡ total (amount (line_in c.pk p.pk s.cart_items)) d places)
unfolding and_then
add_product_to_cart-returns w who posted sought s d places p alone read short found sold fits
      enough =
    let made = or_new_cart w.now who (cart_of who s) s in
    let (r, added, sums) =
      add_line-returns w made.0 p d places made.1 _ alone refl short
        (subst (λ rows. total (amount (line_in made.0.pk p.pk rows)) d places ≤ p.stock_quantity)
          (sym (new_cart-lines w.now who s (cart_of who s))) enough)
        fits in
    (
      (r.0, touch_cart w.now made.0.pk r.1),
      add-runs w who posted sought s (finite d places) p read found sold
          ∙ ap (λ x. and_then x (λ i. modify (touch_cart w.now made.0.pk) >> pure i)) added,
      sums
          ∙ ap (λ rows. total (amount (line_in made.0.pk p.pk rows)) d places)
              (new_cart-lines w.now who s (cart_of who s)),
    )
