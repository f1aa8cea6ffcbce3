-- ===== src/Cart/Tests.antt =====
-- cart/services.py: a shop with the carts of two customers.
use zuvi_web.Prelude.{◌≡◌, refl, Bool, false, true, some, List, [], ◌∷◌, arith, select, leb}
use zuvi_web.Prelude.Int.{pos}
use zuvi_web.Prelude.Effect.{ok, err, is_ok, invalid_operation}
use zuvi_web.Prelude.Sort.{sort_by, group_by}
use zuvi_web.Shop.{Shop, Cart, CartItem, store_row}
use zuvi_web.Catalog.{Product}
use zuvi_web.Stores.{Store}
use zuvi_web.Inventory.Model.{product_row}
use zuvi_web.Inventory.Tests.{opened}
use zuvi_web.Catalog.Public.{is_public}
use zuvi_web.Cart.{get_or_create_cart_for_customer}
use zuvi_web.Cart.Quantity.{
  PostedQuantity, number, not_a_number, positive_number, parse_positive_quantity, more_than,
  ensure_quantity_within_stock, increased, clean_quantity,
}
use zuvi_web.Cart.Services.{
  product_id, find_product, lock_public_product, new_line_full_clean, insert_line, save_quantity,
  Meanwhile, merge_into_winner, add_line, add_product_to_cart, is_own_line, own_line,
  update_cart_item_quantity, remove_cart_item, clear_cart,
}
use zuvi_web.Cart.Invariant.{IsTidy}
use zuvi_web.Cart.Calls.{IsQuiet, adds, done, further, CartSteps-IsTidy}
use zuvi_web.Cart.Elsewhere.{of_cart, IsAlone}
use zuvi_web.Cart.Owners.{CartStep-others}
use zuvi_web.Cart.Added.{Added}
use zuvi_web.Cart.Returns.{add_product_to_cart-returns}
use zuvi_web.Cart.Presentation.{
  PortalLine, joined, portal_cart_items, publicly_available_product_ids,
  build_cart_item_presentation, presentations, build_cart_view_context,
}
use zuvi_web.Cart.Shown.{IsLinked}
use zuvi_web.Cart.Preview.{preview-eq-checkout}
use zuvi_web.Orders.Validation.{Line, by_product, line_amount, build_validated_lines}
use zuvi_web.Orders.Checkout.OrderRow.{lines_subtotal}
use zuvi_web.Orders.Checkout.Completed.{in_cart}
use zuvi_web.Orders.Checkout.Tests.{shop, goods, put_in, value_of, value_of-ok}

abbrev cart : Cart
cart = record { pk = 1; customer = 4; updated_at = 0 }

abbrev other_cart : Cart
other_cart = record { pk = 2; customer = 6; updated_at = 0 }

abbrev other_line : CartItem
other_line = record {
  pk = 3;
  cart = 2;
  product = 1;
  quantity = 1000;
  unit_price_snapshot = some 9900;
}

abbrev two_carts : Shop
two_carts = record shop {
  carts = cart ∷ other_cart ∷ [];
  cart_items = put_in 1 2 500 ∷ put_in 2 1 2500 ∷ other_line ∷ [];
  next_cart = 3;
  next_cart_item = 4;
}

abbrev meanwhile : Meanwhile
meanwhile = record { now = 50; today = 5; before_clean = λ s. s; before_save = λ s. s }

abbrev one_and_a_half : PostedQuantity
one_and_a_half = number (record { coefficient = pos 15; places = 1 })

unfoldable shops : Unit {0}
unfolding opened get_or_create_cart_for_customer positive_number parse_positive_quantity more_than
    ensure_quantity_within_stock increased clean_quantity is_public find_product lock_public_product
    new_line_full_clean insert_line save_quantity merge_into_winner add_line add_product_to_cart
    is_own_line own_line update_cart_item_quantity remove_cart_item clear_cart
shops = tt

abbrev added : CartItem × Shop
added =
    value_of (other_line, two_carts)
      (add_product_to_cart meanwhile (some 4) one_and_a_half (product_id 1) two_carts)

returns :
    is_ok (add_product_to_cart meanwhile (some 4) one_and_a_half (product_id 1) two_carts) ≡ true
unfolding shops
returns = refl

adds_more :
    add_product_to_cart meanwhile (some 4) one_and_a_half (product_id 1) two_carts ≡ ok added
adds_more = value_of-ok (other_line, two_carts) _ returns

-- Two and a half and one and a half are four.
added_quantity : added.0.quantity ≡ 4000
unfolding shops
added_quantity = refl

-- A posted `NaN` is no `ValidationError`.
not_a_number_raises :
    add_product_to_cart meanwhile (some 4) not_a_number (product_id 1) two_carts
    ≡ err invalid_operation
unfolding shops
not_a_number_raises = refl

two_carts-IsTidy : IsTidy two_carts
two_carts-IsTidy = record {
  carts = (refl, (refl, tt));
  cart_keys = (omega arith, (omega arith, tt));
  lines = (refl, (refl, (refl, tt)));
  line_keys = (omega arith, (omega arith, (omega arith, tt)));
  amounts = (omega arith, (omega arith, (omega arith, tt)));
}

meanwhile-IsAlone : IsAlone meanwhile
meanwhile-IsAlone = record { cleaning = λ s. refl; saving = λ s. refl }

meanwhile-IsQuiet : IsQuiet meanwhile
meanwhile-IsQuiet = record { cleaning = λ s v. v; saving = λ s v. v }

CartSteps-IsTidy_example : IsTidy added.1
CartSteps-IsTidy_example = CartSteps-IsTidy two_carts added.1 two_carts-IsTidy (
    further meanwhile 4 done meanwhile-IsQuiet
      (adds one_and_a_half (product_id 1) added.0 adds_more))

CartStep-others_example : select (of_cart 2) added.1.cart_items ≡ other_line ∷ []
CartStep-others_example =
    CartStep-others meanwhile 4 6 other_cart two_carts added.1 two_carts-IsTidy meanwhile-IsAlone
      refl (omega arith) (adds one_and_a_half (product_id 1) added.0 adds_more)

add_product_to_cart-returns_example :
    (r : CartItem × Shop) × (add_product_to_cart meanwhile
        (some 4)
        one_and_a_half
        (product_id 1)
        two_carts
      ≡ ok r)
    × (r.0.quantity ≡ 4000)
unfolding shops
add_product_to_cart-returns_example =
    add_product_to_cart-returns meanwhile 4 one_and_a_half (product_id 1) two_carts 15 1
      (goods 1 7 10000) meanwhile-IsAlone refl (omega arith) refl refl (omega arith) (omega arith)

abbrev by_key : PortalLine → PortalLine → Bool
by_key a b = leb a.item.pk b.item.pk

unwarned : (build_cart_view_context 5 by_key 4 two_carts).has_warnings ≡ false
unfolding shops joined portal_cart_items publicly_available_product_ids build_cart_item_presentation
    presentations build_cart_view_context sort_by group_by line_amount
unwarned = refl

preview_total : (build_cart_view_context 5 by_key 4 two_carts).preview_subtotal ≡ 29700
unfolding shops joined portal_cart_items publicly_available_product_ids build_cart_item_presentation
    presentations build_cart_view_context sort_by group_by line_amount
preview_total = refl

linked :
    {i : CartItem} {p : Product} {store : Store}
    → product_row i.product two_carts.inventory.products ≡ some p
    → store_row p.store two_carts.stores ≡ some store
    → IsLinked two_carts i
linked {i} {p} {store} h k = record { p = p; store = store; has_product = h; has_store = k }

preview-eq-checkout_example :
    (ls : List Line) × (build_validated_lines 5 two_carts
        (sort_by by_product (in_cart cart two_carts))
      ≡ ok ls)
    × (lines_subtotal ls ≡ (build_cart_view_context 5 by_key 4 two_carts).preview_subtotal)
preview-eq-checkout_example =
    preview-eq-checkout 5 by_key 4 two_carts cart two_carts-IsTidy (refl, (refl, tt))
      (linked refl refl, (linked refl refl, (linked refl refl, tt))) refl unwarned
