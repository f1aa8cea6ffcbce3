-- ===== src/Pricing/Applied.antt =====
-- The prices that a product keeps, `apply_calculated_prices` of catalog/pricing.py.
use zuvi_web.Prelude.{◌≡◌, ℕ, false, Option, arith}
use zuvi_web.Prelude.Int.{ℤ}
use zuvi_web.Prelude.Effect.{ok, running}
use zuvi_web.Pricing.{Priced, has_margin, apply_calculated_prices, product_has_complete_pricing}

-- Where a product's prices are not frozen, a second application changes nothing, and the product's
-- pricing is complete exactly where it has a margin; any prices it had before do not count.
pub apply_calculated_prices_settles :
    (p : Priced) {q : Priced}
    → p.frozen ≡ false
    → apply_calculated_prices p ≡ ok q
    → (apply_calculated_prices q ≡ ok q)
      × (product_has_complete_pricing q ≡ has_margin p)
      × ((s : Option ℕ) (f : Option ℤ)
          → apply_calculated_prices (record p { selling_price = s; final_price = f }) ≡ ok q)
unfolding apply_calculated_prices product_has_complete_pricing has_margin running
apply_calculated_prices_settles p thawed h = (ground arith, ground arith, λ s f. ground arith)
