-- ===== src/Cart/Quantity.antt =====
-- cart/services.py: the quantity that a cart service is called with.
use zuvi_web.Prelude.{ℕ, ◌+◌, ◌-◌, ◌*◌, ◌^◌, Bool, true, false, ◌||◌, ltb, leb, if◌then◌else◌}
use zuvi_web.Prelude.Int.{ℤ, pos, negsuc}
use zuvi_web.Prelude.Effect.{Result, ok, err, raise_when, validation, invalid_operation, quantity}
use zuvi_web.Decimal.{Decimal}
use zuvi_web.Catalog.{Product}

-- A posted quantity as `Decimal(str(quantity).strip())` reads it: not at all, as a `NaN`, as an
-- infinity with its sign, or as a number.
pub data PostedQuantity : Type 0 where
  unreadable not_a_number : PostedQuantity
  infinite : (negative : Bool) → PostedQuantity
  number : Decimal → PostedQuantity

-- A value above 0: an infinity, or `digits / 10 ^ places`.
pub data Quantity : Type 0 where
  infinity : Quantity
  finite : (digits places : ℕ) → Quantity

unfoldable pub positive_number : ℤ → (places : ℕ) → Result Quantity
positive_number (pos n) places = raise_when (leb n 0) (validation quantity) (ok (finite n places))
positive_number (negsuc n) places = err (validation quantity)

-- A comparison with `NaN` raises, after the `try` block.
unfoldable pub parse_positive_quantity : PostedQuantity → Result Quantity
unfolding positive_number
parse_positive_quantity unreadable = err (validation quantity)
parse_positive_quantity not_a_number = err invalid_operation
parse_positive_quantity (infinite true) = err (validation quantity)
parse_positive_quantity (infinite false) = ok infinity
parse_positive_quantity (number x) = positive_number x.coefficient x.places

-- The stock is in thousandths.
unfoldable pub more_than : Quantity → (stock : ℕ) → Bool
more_than infinity stock = true
more_than (finite n places) stock = ltb (stock * 10 ^ places) (n * 1000)

unfoldable pub ensure_quantity_within_stock : Product → Quantity → Result (Unit {0})
ensure_quantity_within_stock p q =
    raise_when (more_than q p.stock_quantity) (validation quantity) (ok tt)

-- `item.quantity + quantity`, which has as many places as the longer of the two.
unfoldable pub increased : (thousandths : ℕ) → Quantity → Quantity
increased m infinity = infinity
increased m (finite n places) =
    if leb places 3
    then finite (m + n * 10 ^ (3 - places)) 3
    else finite (m * 10 ^ (places - 3) + n) places

-- The field has 12 digits, three of them after the point.
unfoldable pub clean_quantity : Quantity → Result ℕ
clean_quantity infinity = err (validation quantity)
clean_quantity (finite n places) =
    raise_when (ltb 3 places || leb (10 ^ (9 + places)) n) (validation quantity)
      (ok (n * 10 ^ (3 - places)))
