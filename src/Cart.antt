-- ===== src/Cart.antt =====
-- cart/services.py: the cart of a customer.
pub mod Quantity
pub mod Services
pub mod Invariant
pub mod Kept
pub mod Calls
pub mod Elsewhere
pub mod Owners
pub mod Rows
pub mod Added
pub mod Returns
pub mod Presentation
pub mod Shown
pub mod Preview
mod Tests
use zuvi_web.Prelude.{
  ℕ, ◌+◌, Option, none, some, List, [], ◌∷◌, ◌++◌, ◌==◌, find, map, if◌then◌else◌,
}
use zuvi_web.Prelude.Effect.{Action, ok}
use zuvi_web.Shop.{Shop, Cart}

abbrev pub cart_of : ℕ → Shop → Option Cart
cart_of customer s = find (λ (c : Cart). c.customer == customer) s.carts

abbrev pub new_cart : (now customer : ℕ) → Shop → Cart
new_cart now customer s = record { pk = s.next_cart; customer = customer; updated_at = now }

abbrev pub or_new_cart : (now customer : ℕ) → Option Cart → Shop → Cart × Shop
or_new_cart now customer (some c) s = (c, s)
or_new_cart now customer none s = (
  new_cart now customer s,
  record s { carts = s.carts ++ new_cart now customer s ∷ []; next_cart = s.next_cart + 1 },
)

unfoldable pub get_or_create_cart_for_customer : (now customer : ℕ) → Action Shop Cart
get_or_create_cart_for_customer now customer s =
    ok (or_new_cart now customer (cart_of customer s) s)

abbrev pub touched : (now pk : ℕ) → Cart → Cart
touched now pk c = if c.pk == pk then record c { updated_at = now } else c

-- `cart.save(update_fields=["updated_at"])`.
abbrev pub touch_cart : (now pk : ℕ) → Shop → Shop
touch_cart now pk s = record s { carts = map (touched now pk) s.carts }
