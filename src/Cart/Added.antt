-- ===== src/Cart/Added.antt =====
-- cart/services.py: what a call of `add_product_to_cart` leaves in the cart.
use zuvi_web.Prelude.{ℕ, ◌≡◌, refl, true, false, Option, none, some, ◌<◌}
use zuvi_web.Prelude.Effect.{ok}
use zuvi_web.Catalog.{Product}
use zuvi_web.Catalog.Public.{is_public_row}
use zuvi_web.Shop.{Shop, Cart, CartItem}
use zuvi_web.Cart.{cart_of, or_new_cart}
use zuvi_web.Decimal.{Decimal}
use zuvi_web.Prelude.Int.{pos}
use zuvi_web.Cart.Quantity.{
  infinite, number, infinity, finite, Quantity, PostedQuantity, parse_positive_quantity,
}
use zuvi_web.Cart.Services.{ProductKey, find_product, line_in, Meanwhile}
use zuvi_web.Cart.Rows.{amount, Placed}

-- The quantity is a number above 0, or infinite, as it was posted.
abbrev pub Reads : PostedQuantity → Quantity → Type 0
Reads posted infinity = posted ≡ infinite false
Reads posted (finite digits places) =
    (posted ≡ number (record { coefficient = pos digits; places = places })) × (0 < digits)

-- What the call of the customer `who` read, and the line that it left.
pub record Added (w : Meanwhile) (who : ℕ) (posted : PostedQuantity) (sought : ProductKey)
    (s : Shop) (r : CartItem × Shop) : Type 0 where
  pub q : Quantity
  pub read : parse_positive_quantity posted ≡ ok q
  pub reads : Reads posted q
  pub good : Product
  pub found : find_product sought s.inventory.products ≡ ok (some good)
  pub sold : is_public_row w.today s.stores good ≡ true
  pub placed :
      let c = (or_new_cart w.now who (cart_of who s) s).0 in
      Placed (amount (line_in c.pk good.pk s.cart_items)) c good q s.cart_items r

pub new_cart-lines :
    (now k : ℕ) (s : Shop) (found : Option Cart)
    → (or_new_cart now k found s).1.cart_items ≡ s.cart_items
new_cart-lines now k s none = refl
new_cart-lines now k s (some c) = refl
