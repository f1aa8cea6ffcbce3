-- ===== src/Pricing/Bounds.antt =====
-- Bounds on the prices of catalog/pricing.py: what the admin margin and the discount may do.
use native.Mathlib.Nat.{mul-le-mul_left}
use zuvi_web.Prelude.{
  ℕ, ◌+◌, ◌*◌, ◌^◌, ◌≤◌, ◌<◌, ◌≡◌, ◌≢◌, refl, ap, Option, none, some, false, arith, get_or, subst,
}
use zuvi_web.Prelude.Int.{ℤ, pos}
use zuvi_web.Prelude.Effect.{
  ok, bind-eq-ok, raise_when-eq-ok, running, final_price, selling_price, store_price,
  profit_margin_type, profit_margin, validation,
}
use zuvi_web.Decimal.{Decimal, of_cents, one, is_negative, add, multiply, percent}
use zuvi_web.Decimal.Rounding.{pow-add}
use zuvi_web.Pricing.{
  MarginType, is_blank, DiscountType, quantize_money, margin_price, positive_money,
  selling_price_of, calculate_selling_price, discounted_price, calculate_final_price,
  calculate_prices,
}
use zuvi_web.Pricing.Steps.{
  nonneg, quantize_money_mono, quantize-of_cents, positive_money-ok, add-pos, multiply-pos,
  IsAtMost, discounted-IsAtMost,
}

-- A decimal that is at most `s` cents rounds to at most `s` cents.
IsAtMost-quantize : (s : ℕ) (x : Decimal) (n : ℕ) → IsAtMost s x → quantize_money x ≡ pos n → n ≤ s
IsAtMost-quantize s x n (b, hb, le) e =
    let (k, m, ek, em, le') = quantize_money_mono x (of_cents s) b s hb refl le in
    ground (arith, quantize-of_cents s)

discounted_price-le :
    (s : ℕ) (type : DiscountType) (amount : Decimal) (f : ℤ)
    → discounted_price type (of_cents s) amount ≡ ok f
    → (n : ℕ) × (f ≡ pos n) × (0 < n) × (n ≤ s)
unfolding discounted_price
discounted_price-le s type amount f e =
    let (nonneg_amount, e₁) = raise_when-eq-ok _ _ _ e in
    let (final, ed, e₂) = bind-eq-ok _ _ e₁ in
    let (n, en, e₃) = bind-eq-ok _ _ e₂ in
    let (eq, above) = positive_money-ok final_price final n en in
    (
      n,
      cc,
      above,
      IsAtMost-quantize s final n (discounted-IsAtMost type s amount final nonneg_amount ed) eq,
    )

selling_price_of-pos :
    (type : MarginType) (price margin : Decimal) (s : ℕ)
    → selling_price_of type price margin ≡ ok s
    → 0 < s
unfolding selling_price_of
selling_price_of-pos type price margin s e =
    let (margin_ok, e₁) = raise_when-eq-ok (is_negative margin) (validation profit_margin) _ e in
    let (x, ex, e₂) =
      bind-eq-ok (margin_price type price margin) (positive_money selling_price) e₁ in
    (positive_money-ok selling_price x s e₂).1

no_margin :
    (price : Decimal) (type : MarginType) {s : ℕ}
    → calculate_selling_price (some price) type none ≢ ok s
unfolding calculate_selling_price running
no_margin price type e = ground arith

calculate_selling_price-pos :
    (price : Option Decimal) (type : MarginType) (margin : Option Decimal) {s : ℕ}
    → calculate_selling_price price type margin ≡ ok s
    → 0 < s
unfolding calculate_selling_price
calculate_selling_price-pos none type margin e = cc
calculate_selling_price-pos (some price) type none e = absurd (no_margin price type e)
calculate_selling_price-pos (some price) type (some margin) {s} e =
    let (price_ok, e₁) = raise_when-eq-ok (is_negative price) (validation store_price) _ e in
    let (type_ok, e₂) = raise_when-eq-ok (is_blank type) (validation profit_margin_type) _ e₁ in
    selling_price_of-pos type price margin s e₂

blank_discount :
    (s : ℕ) (value : Option Decimal)
    → calculate_final_price (some (of_cents s)) DiscountType.blank value ≡ ok (pos s)
unfolding calculate_final_price is_negative running
blank_discount s value = ground (arith, quantize-of_cents s)

-- The final price of a selling price of `s` cents.
final_price-le :
    (s : ℕ) (type : DiscountType) (value : Option Decimal) (f : ℤ)
    → 0 < s
    → calculate_final_price (some (of_cents s)) type value ≡ ok f
    → (n : ℕ) × (f ≡ pos n) × (0 < n) × (n ≤ s)
unfolding calculate_final_price
final_price-le s DiscountType.blank value f h e = (s, cc (blank_discount s value), h, omega arith)
final_price-le s type value f h e =
    let (selling_ok, e₁) =
      raise_when-eq-ok (is_negative (of_cents s)) (validation selling_price) _ e in
    discounted_price-le s type (get_or (of_cents 0) value) f e₁

-- Prices that are calculated satisfy 0 < final price ≤ selling price, in whole cents: a discount
-- cannot raise a price or bring it to 0.
pub calculate_prices_bounds :
    (price : Option Decimal) (type : MarginType) (margin : Option Decimal) (discount : DiscountType)
    (value : Option Decimal) {s : ℕ} {f : ℤ}
    → calculate_prices price type margin discount value ≡ ok (s, f)
    → (n : ℕ) × (f ≡ pos n) × (0 < n) × (n ≤ s)
unfolding calculate_prices
calculate_prices_bounds price type margin discount value {s} {f} e =
    let (selling, es, e₁) = bind-eq-ok _ _ e in
    let (final, ef, e₂) = bind-eq-ok _ _ e₁ in
    let (n, en, above, le) =
      final_price-le selling discount value final (calculate_selling_price-pos price type margin es)
        ef in
    (n, cc, above, ground arith)

-- What a store price becomes: a decimal that is no smaller.
abbrev IsAtLeast : Decimal → Decimal → Type 0
IsAtLeast price x =
    (a : ℕ) × (b : ℕ) × (price.coefficient ≡ pos a)
    × (x.coefficient ≡ pos b)
    × (a * 10 ^ x.places ≤ b * 10 ^ price.places)

add-IsAtLeast :
    (price margin : Decimal)
    → is_negative price ≡ false
    → is_negative margin ≡ false
    → IsAtLeast price (add price margin)
unfolding add
add-IsAtLeast price margin hp hm =
    let (a, ha) = nonneg price hp in
    let (b, hb) = nonneg margin hm in
    (
      a,
      _,
      ha,
      add-pos price margin a b ha hb,
      omega (arith, ap (λ (k : ℕ). a * k) (pow-add price.places margin.places)),
    )

percent-IsAtLeast :
    (price margin : Decimal)
    → is_negative price ≡ false
    → is_negative margin ≡ false
    → IsAtLeast price (multiply price (add one (percent margin)))
unfolding multiply add percent
percent-IsAtLeast price margin hp hm =
    let (a, ha) = nonneg price hp in
    let (b, hb) = nonneg margin hm in
    let factor = add-pos one (percent margin) 1 b refl hb in
    let m : ℕ = 0 + (margin.places + 2) in
    let grows : 10 ^ m ≤ 1 * 10 ^ (margin.places + 2) + b * 10 ^ 0 =
      omega (arith, pow-add 0 (margin.places + 2)) in
    (
      a,
      _,
      ha,
      multiply-pos price (add one (percent margin)) a _ ha factor,
      omega (
        arith,
        ap (λ (k : ℕ). a * k) (pow-add price.places m),
        mul-le-mul_left (a * 10 ^ price.places) grows,
      ),
    )

margin_price-IsAtLeast :
    (type : MarginType) (price margin x : Decimal)
    → is_negative price ≡ false
    → is_negative margin ≡ false
    → margin_price type price margin ≡ ok x
    → IsAtLeast price x
unfolding margin_price
margin_price-IsAtLeast MarginType.fixed price margin x hp hm e =
    subst (IsAtLeast price) (cc) (add-IsAtLeast price margin hp hm)
margin_price-IsAtLeast MarginType.percentage price margin x hp hm e =
    let same : multiply price (add one (percent margin)) ≡ x = ground arith in
    subst (IsAtLeast price) same (percent-IsAtLeast price margin hp hm)
margin_price-IsAtLeast MarginType.blank price margin x hp hm e = cc
margin_price-IsAtLeast MarginType.other price margin x hp hm e = cc

-- A selling price that is calculated is at least the store price, rounded to cents: a margin is
-- never a loss.
pub selling-ge_store_price :
    (price : Decimal) (type : MarginType) (margin : Option Decimal) {s : ℕ}
    → calculate_selling_price (some price) type margin ≡ ok s
    → (c : ℕ) × (quantize_money price ≡ pos c) × (c ≤ s)
unfolding calculate_selling_price selling_price_of
selling-ge_store_price price type none e = absurd (no_margin price type e)
selling-ge_store_price price type (some margin) {s} e =
    let (price_ok, e₁) = raise_when-eq-ok (is_negative price) (validation store_price) _ e in
    let (type_ok, e₂) = raise_when-eq-ok (is_blank type) (validation profit_margin_type) _ e₁ in
    let (margin_ok, e₃) = raise_when-eq-ok (is_negative margin) (validation profit_margin) _ e₂ in
    let (x, ex, e₄) =
      bind-eq-ok (margin_price type price margin) (positive_money selling_price) e₃ in
    let (a, b, ha, hb, le) = margin_price-IsAtLeast type price margin x price_ok margin_ok ex in
    let (m, n, em, en, le') = quantize_money_mono price x a b ha hb le in
    let (eq, above) = positive_money-ok selling_price x s e₄ in (m, em, ground arith)
