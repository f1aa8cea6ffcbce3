-- ===== src/Pricing.antt =====
-- catalog/pricing.py: the selling price from the store price and the margin, and the final price
-- from the selling price and the discount.
pub mod Steps
pub mod Bounds
pub mod Applied
mod Tests
use zuvi_web.Prelude.{
  ℕ, Bool, true, false, not, ◌&&◌, Option, none, some, is_some, get_or, leb, if◌then◌else◌,
}
use zuvi_web.Prelude.Int.{ℤ, pos, negsuc}
use zuvi_web.Prelude.Effect.{
  Field, Result, ok, err, bind, raise_when, validation, store_price, profit_margin_type,
  profit_margin, selling_price, discount_type, discount_value, final_price,
}
use zuvi_web.Decimal.{
  Decimal, of_cents, one, is_negative, exceeds, add, subtract, multiply, percent, round_half_up,
  quantize,
}

-- The text of a choice field: empty, one of the two choices, or anything else.
pub data MarginType : Type 0 where
  blank fixed percentage other : MarginType

pub data DiscountType : Type 0 where
  blank fixed percentage other : DiscountType

abbrev pub is_blank : MarginType → Bool
is_blank MarginType.blank = true
is_blank _ = false

abbrev pub is_blank_discount : DiscountType → Bool
is_blank_discount DiscountType.blank = true
is_blank_discount _ = false

abbrev pub hundred : Decimal
hundred = record { coefficient = pos 100; places = 0 }

unfoldable pub quantize_money : Decimal → ℤ
unfolding round_half_up
quantize_money = quantize round_half_up 2

-- The price is an optional decimal, `None` where the field is not set.
unfoldable pub margin_price : MarginType → Decimal → Decimal → Result Decimal
margin_price MarginType.blank price margin = err (validation profit_margin_type)
margin_price MarginType.percentage price margin =
    if exceeds margin hundred
    then err (validation profit_margin)
    else ok (multiply price (add one (percent margin)))
margin_price MarginType.fixed price margin = ok (add price margin)
margin_price MarginType.other price margin = err (validation profit_margin_type)

-- `quantize_money`, and the refusal of a price that is not above 0.
unfoldable pub positive_money : Field → Decimal → Result ℕ
positive_money field x = elim (quantize_money x) [
  | pos n ↦ raise_when (leb n 0) (validation field) (ok n)
  | negsuc n ↦ err (validation field)
]

-- The body after the price and the margin are known to be given.
unfoldable pub selling_price_of : MarginType → Decimal → Decimal → Result ℕ
selling_price_of type price margin =
    raise_when (is_negative margin) (validation profit_margin)
      (bind (margin_price type price margin) (positive_money selling_price))

unfoldable pub calculate_selling_price : Option Decimal → MarginType → Option Decimal → Result ℕ
calculate_selling_price none type margin = err (validation store_price)
calculate_selling_price (some price) type margin =
    raise_when (is_negative price) (validation store_price) (
      raise_when (is_blank type) (validation profit_margin_type) (elim margin [
        | none ↦ err (validation profit_margin)
        | some m ↦ selling_price_of type price m
      ]))

unfoldable pub discounted : DiscountType → Decimal → Decimal → Result Decimal
discounted DiscountType.percentage selling value =
    if exceeds value hundred
    then err (validation discount_value)
    else ok (multiply selling (subtract one (percent value)))
discounted DiscountType.fixed selling value =
    if exceeds value selling then err (validation discount_value) else ok (subtract selling value)
discounted DiscountType.blank selling value = err (validation discount_type)
discounted DiscountType.other selling value = err (validation discount_type)

-- The body where a discount type is given.
unfoldable pub discounted_price : DiscountType → Decimal → Decimal → Result ℤ
discounted_price type selling amount = raise_when (is_negative amount) (validation discount_value) (
    bind (discounted type selling amount)
      λ final. bind (positive_money final_price final) λ n. ok (pos n))

-- `discount_value` is 0 where it is not given. The result is in cents.
unfoldable pub calculate_final_price : Option Decimal → DiscountType → Option Decimal → Result ℤ
calculate_final_price none type value = err (validation selling_price)
calculate_final_price (some selling) type value =
    raise_when (is_negative selling) (validation selling_price) (
      if is_blank_discount type
      then ok (quantize_money selling)
      else discounted_price type selling (get_or (of_cents 0) value))

-- The selling and the final price, in cents.
unfoldable pub calculate_prices :
    Option Decimal → MarginType → Option Decimal → DiscountType → Option Decimal → Result (ℕ × ℤ)
calculate_prices price type margin discount value =
    bind (calculate_selling_price price type margin) λ selling.
      bind (calculate_final_price (some (of_cents selling)) discount value)
        λ final. ok (selling, final)

-- The pricing fields of a `Product`.
pub record Priced : Type 0 where
  pub frozen : Bool  -- `_freeze_calculated_prices`
  pub store_price : Option Decimal
  pub profit_margin_type : MarginType
  pub profit_margin : Option Decimal
  pub discount_type : DiscountType
  pub discount_value : Option Decimal
  pub selling_price : Option ℕ
  pub final_price : Option ℤ

-- `product.profit_margin_type and product.profit_margin is not None`.
unfoldable pub has_margin : Priced → Bool
has_margin p = not (is_blank p.profit_margin_type) && is_some p.profit_margin

unfoldable pub apply_calculated_prices : Priced → Result Priced
apply_calculated_prices p =
    if p.frozen
    then ok p
    else if has_margin p
    then (bind
        (calculate_prices p.store_price p.profit_margin_type p.profit_margin p.discount_type
          p.discount_value)
        λ prices. ok (record p { selling_price = some prices.0; final_price = some prices.1 }))
    else ok (record p { selling_price = none; final_price = none })

unfoldable pub product_has_complete_pricing : Priced → Bool
product_has_complete_pricing p = has_margin p && (is_some p.selling_price && is_some p.final_price)
