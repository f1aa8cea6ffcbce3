-- ===== src/Orders/Cancellation/Totals.antt =====
-- The payable totals of an order, orders/cancellation.py.
use native.Mathlib.Nat.{mul-le-mul_right, lt_of_mul-lt-mul_right}
use zuvi_web.Prelude.{
  ℕ, zero, suc, ◌+◌, ◌*◌, ◌≡◌, ◌≤◌, ◌<◌, refl, ap, ◌∙◌, Bool, List, [], sum_of, arith,
}
use zuvi_web.Decimal.{round_half_even}
use zuvi_web.Decimal.Rounding.{round_half_even_nearest, round_half_even-mul}
use zuvi_web.Orders.Model.{Order, StoreOrder}
use zuvi_web.Orders.Cancellation.{chargeable_rows, no_rows, scaled_discount, payable_totals}

-- A share of a whole is at most the part that it is taken of.
round_half_even-share : (d s p : ℕ) → 0 < p → d ≤ p → round_half_even (d * s) p ≤ s
round_half_even-share d s p h le =
    let q : ℕ = round_half_even (d * s) p in
    let near : 2 * (q * p) ≤ 2 * (d * s) + p = (round_half_even_nearest (d * s) p h).1 in
    let most : d * s ≤ p * s = mul-le-mul_right s le in
    let below : q * p < (s + 1) * p = omega arith in omega (arith, lt_of_mul-lt-mul_right p below)

scaled_discount-most : (b : Bool) (d s p : ℕ) → d ≤ p → scaled_discount b d s p ≤ s
unfolding scaled_discount
scaled_discount-most b d s p le = ground (arith, round_half_even-share d s p)

scaled_discount_again :
    (b : Bool) (d s p : ℕ)
    → scaled_discount b (scaled_discount b d s p) s s ≡ scaled_discount b d s p
unfolding scaled_discount
scaled_discount_again b d zero p =
    let none_left : 0 < p → round_half_even (d * 0) p ≡ 0 =
      λ h. ap (λ (k : ℕ). round_half_even k p) (omega arith) ∙ round_half_even-mul 0 p h in
    ground (arith, none_left)
scaled_discount_again b d (suc s) p =
    ground (arith, round_half_even-mul (scaled_discount b d (suc s) p) (suc s))

-- A second calculation with the same store orders changes no total.
pub payable_totals_again :
    (rows : List StoreOrder) (o : Order)
    → payable_totals rows (payable_totals rows o) ≡ payable_totals rows o
unfolding payable_totals
payable_totals_again rows o =
    rw
      (scaled_discount_again (no_rows (chargeable_rows rows)) o.discount_total
        (sum_of (λ (so : StoreOrder). so.items_subtotal) (chargeable_rows rows)) o.items_subtotal)
      refl

-- Where the discount was at most the subtotal, it still is, and the grand total is the remaining
-- subtotal and delivery charges less the discount, so it is never cut off at 0.
pub payable_totals_balance :
    (rows : List StoreOrder) (o : Order)
    → o.discount_total ≤ o.items_subtotal
    → let p = payable_totals rows o in
      (p.discount_total ≤ p.items_subtotal)
      × (p.grand_total + p.discount_total ≡ p.items_subtotal + p.delivery_charge)
unfolding payable_totals
payable_totals_balance rows o h = ground (
  arith,
  scaled_discount-most (no_rows (chargeable_rows rows)) o.discount_total
      (sum_of (λ (so : StoreOrder). so.items_subtotal) (chargeable_rows rows)) o.items_subtotal h,
)

-- Without a chargeable store order every total is 0.
pub payable_totals_none :
    (rows : List StoreOrder) (o : Order)
    → chargeable_rows rows ≡ []
    → (payable_totals rows o).grand_total ≡ 0
unfolding payable_totals scaled_discount
payable_totals_none rows o h = ground (arith, h)
