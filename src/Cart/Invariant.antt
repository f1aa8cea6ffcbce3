-- ===== src/Cart/Invariant.antt =====
-- cart/models.py: what the constraints of the tables promise of carts and their lines, and the calls
-- of cart/services.py that keep it.
use zuvi_web.Prelude.{
  ℕ, zero, suc, ◌+◌, ◌-◌, ◌*◌, ◌^◌, ◌<◌, ◌≡◌, refl, subst, Bool, true, false, ◌||◌, none, List, [],
  ◌∷◌, any, find, leb, ◌==◌, if◌then◌else◌, All, arith,
}
use zuvi_web.Prelude.Effect.{ok, raise_when-eq-ok, raise_when, validation, quantity}
use zuvi_web.Prelude.Int.{ℤ, pos, negsuc}
use zuvi_web.Prelude.Apart.{Apart, Apart-map, All-map}
use zuvi_web.Catalog.{Product}
use zuvi_web.Inventory.Movement.{max_units}
use zuvi_web.Shop.{Shop, Cart, CartItem}
use zuvi_web.Cart.{new_cart, touched, touch_cart}
use zuvi_web.Cart.Quantity.{
  unreadable, not_a_number, infinite, number, infinity, finite, Quantity, PostedQuantity,
  positive_number, parse_positive_quantity, increased, clean_quantity,
}
use zuvi_web.Cart.Services.{is_line, with_quantity, rewritten, write_line}

-- One cart per customer, and one line per cart and product.
abbrev pub same_cart : Cart → Cart → Bool
same_cart a b = a.pk == b.pk || a.customer == b.customer

abbrev pub same_line : CartItem → CartItem → Bool
same_line i j = i.pk == j.pk || is_line i.cart i.product j

abbrev pub IsAmount : CartItem → Type 0
IsAmount i = (0 < i.quantity) × (i.quantity < max_units)

-- Keys in use are below the next of their sequence, and the quantity of a line is above 0 and
-- fits its field.
pub record IsTidy (s : Shop) : Type 0 where
  pub carts : Apart same_cart s.carts
  pub cart_keys : All (λ (c : Cart). c.pk < s.next_cart) s.carts
  pub lines : Apart same_line s.cart_items
  pub line_keys : All (λ (i : CartItem). i.pk < s.next_cart_item) s.cart_items
  pub amounts : All IsAmount s.cart_items

pub touch_cart-IsTidy : (now pk : ℕ) (s : Shop) → IsTidy s → IsTidy (touch_cart now pk s)
touch_cart-IsTidy now pk s v = record {
  carts = Apart-map same_cart (touched now pk) s.carts (λ a b. ground arith) v.carts;
  cart_keys =
      All-map (λ (c : Cart). c.pk < s.next_cart) (λ (c : Cart). c.pk < s.next_cart) (touched now pk)
        s.carts (λ c k. ground (arith, k)) v.cart_keys;
  lines = v.lines;
  line_keys = v.line_keys;
  amounts = v.amounts;
}

pub next-new_cart :
    (now k : ℕ) (s : Shop) (rows : List Cart)
    → All (λ (c : Cart). c.pk < s.next_cart) rows
    → find (λ (c : Cart). c.customer == k) rows ≡ none
    → any (λ (c : Cart). same_cart c (new_cart now k s)) rows ≡ false
next-new_cart now k s [] h g = refl
next-new_cart now k s (c ∷ rows) h g = ground (arith, h.0, next-new_cart now k s rows h.1)

pub weaken-keys :
    {A : Type 0} (key : A → ℕ) (n : ℕ) (xs : List A)
    → All (λ x. key x < n) xs
    → All (λ x. key x < n + 1) xs
weaken-keys key n [] h = tt
weaken-keys key n (x ∷ xs) h = (ground (arith, h.0), weaken-keys key n xs h.1)

-- `clean` and the field of a quantity: 12 digits, three of them after the point.
abbrev pub IsPositive : Quantity → Type 0
IsPositive infinity = Unit
IsPositive (finite n places) = 0 < n

positive_number-IsPositive :
    (c : ℤ) (places : ℕ) (q : Quantity) → positive_number c places ≡ ok q → IsPositive q
unfolding positive_number
positive_number-IsPositive (pos n) places q h =
    let (above, came) = raise_when-eq-ok (leb n 0) (validation quantity) _ h in
    let same : finite n places ≡ q = cc in subst IsPositive same (ground arith)
positive_number-IsPositive (negsuc n) places q h = cc

pub parse-IsPositive :
    (x : PostedQuantity) (q : Quantity) → parse_positive_quantity x ≡ ok q → IsPositive q
unfolding parse_positive_quantity raise_when
parse-IsPositive unreadable q h = cc
parse-IsPositive not_a_number q h = cc
parse-IsPositive (infinite true) q h = cc
parse-IsPositive (infinite false) q h = let same : infinity ≡ q = cc in subst IsPositive same tt
parse-IsPositive (number x) q h = positive_number-IsPositive x.coefficient x.places q h

pow-positive : (k : ℕ) → 0 < 10 ^ k
pow-positive zero = omega arith
pow-positive (suc k) = omega (arith, pow-positive k)

scaled-positive : (n k : ℕ) → 0 < n → 0 < n * 10 ^ k
scaled-positive zero k h = omega arith
scaled-positive (suc n) k h = omega (arith, pow-positive k)

pub increased-IsPositive : (m : ℕ) (q : Quantity) → IsPositive q → IsPositive (increased m q)
unfolding increased
increased-IsPositive m infinity h = tt
increased-IsPositive m (finite n places) h =
    elim (leb places 3)
      as (λ c. IsPositive (
        if c
        then finite (m + n * 10 ^ (3 - places)) 3
        else finite (m * 10 ^ (places - 3) + n) places)) [
          | true ↦ omega (arith, scaled-positive n (3 - places) h)
          | false ↦ omega arith
        ]

pub clean_quantity-bounds :
    (q : Quantity) (n : ℕ) → IsPositive q → clean_quantity q ≡ ok n → (0 < n) × (n < max_units)
unfolding clean_quantity raise_when
clean_quantity-bounds infinity n h g = cc
clean_quantity-bounds (finite d zero) n h g = ground arith
clean_quantity-bounds (finite d (suc zero)) n h g = ground arith
clean_quantity-bounds (finite d (suc (suc zero))) n h g = ground arith
clean_quantity-bounds (finite d (suc (suc (suc zero)))) n h g = ground arith
clean_quantity-bounds (finite d (suc (suc (suc (suc places))))) n h g = ground arith

pub write_line-IsTidy :
    (p : Product) (n pk : ℕ) (s : Shop)
    → (0 < n) × (n < max_units)
    → IsTidy s
    → IsTidy (write_line p n pk s)
write_line-IsTidy p n pk s b v = record {
  carts = v.carts;
  cart_keys = v.cart_keys;
  lines = Apart-map same_line (rewritten p n pk) s.cart_items (λ i j. ground arith) v.lines;
  line_keys =
      All-map (λ (i : CartItem). i.pk < s.next_cart_item)
        (λ (i : CartItem). i.pk < s.next_cart_item) (rewritten p n pk) s.cart_items
        (λ i k. ground (arith, k)) v.line_keys;
  amounts =
      All-map IsAmount IsAmount (rewritten p n pk) s.cart_items
        (λ i k. elim (i.pk == pk) as (λ c. IsAmount (if c then with_quantity p n i else i)) [
          | true ↦ b
          | false ↦ k
        ])
        v.amounts;
}
