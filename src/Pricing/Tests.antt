-- ===== src/Pricing/Tests.antt =====
-- Prices of a product that costs 80.00, with a margin of 25 % and a discount of 10 %.
use zuvi_web.Prelude.{ℕ, ◌≡◌, ◌≤◌, ◌<◌, refl, false, Option, none, some}
use zuvi_web.Prelude.Int.{ℤ, pos, ◌+ℤ◌, ◌-ℤ◌, ◌*ℤ◌}
use zuvi_web.Prelude.Effect.{ok, running}
use zuvi_web.Decimal.{
  of_cents, is_negative, exceeds, add, subtract, multiply, percent, round_half_up,
}
use zuvi_web.Pricing.{
  MarginType, DiscountType, quantize_money, margin_price, positive_money, selling_price_of,
  calculate_selling_price, discounted, discounted_price, calculate_final_price, calculate_prices,
}
use zuvi_web.Pricing.{Priced, has_margin, apply_calculated_prices, product_has_complete_pricing}
use zuvi_web.Pricing.Applied.{apply_calculated_prices_settles}
use zuvi_web.Pricing.Bounds.{calculate_prices_bounds, selling-ge_store_price}

unfoldable opened : Unit {0}
unfolding running ◌+ℤ◌ ◌-ℤ◌ ◌*ℤ◌ is_negative exceeds add subtract multiply percent round_half_up
    quantize_money margin_price positive_money selling_price_of calculate_selling_price discounted
    discounted_price calculate_final_price calculate_prices
opened = tt

priced :
    calculate_prices
      (some (of_cents 8000))
      MarginType.percentage
      (some (of_cents 2500))
      DiscountType.percentage
      (some (of_cents 1000))
    ≡ ok (10000, pos 9000)
unfolding opened
priced = refl

sold_at :
    calculate_selling_price (some (of_cents 8000)) MarginType.percentage (some (of_cents 2500))
    ≡ ok 10000
unfolding opened
sold_at = refl

calculate_prices_bounds_example : (n : ℕ) × (pos 9000 ≡ pos n) × (0 < n) × (n ≤ 10000)
calculate_prices_bounds_example =
    calculate_prices_bounds (some (of_cents 8000)) MarginType.percentage (some (of_cents 2500))
      DiscountType.percentage (some (of_cents 1000)) priced

selling-ge_store_price_example : (c : ℕ) × (quantize_money (of_cents 8000) ≡ pos c) × (c ≤ 10000)
selling-ge_store_price_example =
    selling-ge_store_price (of_cents 8000) MarginType.percentage (some (of_cents 2500)) sold_at

abbrev jar : Option ℕ → Option ℤ → Priced
jar selling final = record {
  frozen = false;
  store_price = some (of_cents 8000);
  profit_margin_type = MarginType.percentage;
  profit_margin = some (of_cents 2500);
  discount_type = DiscountType.percentage;
  discount_value = some (of_cents 1000);
  selling_price = selling;
  final_price = final;
}

applied : apply_calculated_prices (jar none none) ≡ ok (jar (some 10000) (some (pos 9000)))
unfolding opened apply_calculated_prices has_margin
applied = refl

apply_calculated_prices_settles_example :
    (apply_calculated_prices (jar (some 10000) (some (pos 9000)))
      ≡ ok (jar (some 10000) (some (pos 9000))))
    × (product_has_complete_pricing (jar (some 10000) (some (pos 9000)))
        ≡ has_margin (jar none none))
    × ((s : Option ℕ) (f : Option ℤ)
        → apply_calculated_prices (jar s f) ≡ ok (jar (some 10000) (some (pos 9000))))
apply_calculated_prices_settles_example =
    apply_calculated_prices_settles (jar none none) refl applied
