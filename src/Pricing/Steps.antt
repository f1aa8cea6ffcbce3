-- ===== src/Pricing/Steps.antt =====
-- The steps of the calculations of catalog/pricing.py on decimals that are not negative.
use native.Mathlib.Nat.{mul-le-mul_left}
use zuvi_web.Prelude.{
  ℕ, ◌+◌, ◌*◌, ◌^◌, ◌≤◌, ◌<◌, ◌≡◌, refl, ap, false, arith, Bool-cases, inl, inr, ◌-◌, subst,
}
use zuvi_web.Prelude.Int.{pos}
use zuvi_web.Prelude.Effect.{Field, ok, running}
use zuvi_web.Decimal.{
  Decimal, of_cents, one, is_negative, exceeds, add, subtract, multiply, percent, round_half_up,
}
use zuvi_web.Decimal.Rounding.{round_half_up_mono, round_half_up-mul, pow-pos, pow-add}
use zuvi_web.Pricing.{DiscountType, hundred, quantize_money, positive_money, discounted}

abbrev pub IsNonneg : Decimal → Type 0
IsNonneg x = (c : ℕ) × (x.coefficient ≡ pos c)

pub nonneg : (x : Decimal) → is_negative x ≡ false → IsNonneg x
unfolding is_negative
nonneg x h = ground arith

pub quantize_money-pos :
    (x : Decimal) (c : ℕ)
    → x.coefficient ≡ pos c
    → quantize_money x ≡ pos (round_half_up (c * 10 ^ 2) (10 ^ x.places))
unfolding quantize_money
quantize_money-pos x c h = rw h refl

-- `x ≤ y` on decimals that are not negative.
pub quantize_money_mono :
    (x y : Decimal) (a b : ℕ)
    → x.coefficient ≡ pos a
    → y.coefficient ≡ pos b
    → a * 10 ^ y.places ≤ b * 10 ^ x.places
    → (m : ℕ) × (n : ℕ) × (quantize_money x ≡ pos m) × (quantize_money y ≡ pos n) × (m ≤ n)
quantize_money_mono x y a b ha hb le = (
  _,
  _,
  quantize_money-pos x a ha,
  quantize_money-pos y b hb,
  round_half_up_mono (a * 10 ^ 2) (10 ^ x.places) (b * 10 ^ 2) (10 ^ y.places) (pow-pos x.places)
      (pow-pos y.places) (omega arith),
)

pub quantize-of_cents : (n : ℕ) → quantize_money (of_cents n) ≡ pos n
unfolding quantize_money
quantize-of_cents n = ap pos (round_half_up-mul n (10 ^ 2) (omega arith))

pub positive_money-ok :
    (field : Field) (x : Decimal) (n : ℕ)
    → positive_money field x ≡ ok n
    → (quantize_money x ≡ pos n) × (0 < n)
unfolding positive_money running
positive_money-ok field x n h = ground arith

pub exceeds-false :
    (x y : Decimal) (a b : ℕ)
    → x.coefficient ≡ pos a
    → y.coefficient ≡ pos b
    → exceeds y x ≡ false
    → b * 10 ^ x.places ≤ a * 10 ^ y.places
unfolding exceeds
exceeds-false x y a b ha hb h = ground arith

pub subtract-pos :
    (x y : Decimal) (a b : ℕ)
    → x.coefficient ≡ pos a
    → y.coefficient ≡ pos b
    → b * 10 ^ x.places ≤ a * 10 ^ y.places
    → (subtract x y).coefficient ≡ pos (a * 10 ^ y.places - b * 10 ^ x.places)
unfolding subtract
subtract-pos x y a b ha hb le = ground arith

pub add-pos :
    (x y : Decimal) (a b : ℕ)
    → x.coefficient ≡ pos a
    → y.coefficient ≡ pos b
    → (add x y).coefficient ≡ pos (a * 10 ^ y.places + b * 10 ^ x.places)
unfolding add
add-pos x y a b ha hb = ground arith

pub multiply-pos :
    (x y : Decimal) (a b : ℕ)
    → x.coefficient ≡ pos a
    → y.coefficient ≡ pos b
    → (multiply x y).coefficient ≡ pos (a * b)
unfolding multiply
multiply-pos x y a b ha hb = ground arith

-- What a price of `s` cents becomes: a decimal that is no larger.
abbrev pub IsAtMost : ℕ → Decimal → Type 0
IsAtMost s x = (b : ℕ) × (x.coefficient ≡ pos b) × (b * 10 ^ 2 ≤ s * 10 ^ x.places)

pub subtract-IsAtMost :
    (s : ℕ) (value : Decimal)
    → is_negative value ≡ false
    → exceeds value (of_cents s) ≡ false
    → IsAtMost s (subtract (of_cents s) value)
unfolding subtract
subtract-IsAtMost s value h e =
    let (b, hb) = nonneg value h in
    let le = exceeds-false (of_cents s) value s b refl hb e in
    (
      _,
      subtract-pos (of_cents s) value s b refl hb le,
      omega (arith, pow-add 2 value.places, ap (λ (k : ℕ). s * k) (pow-add 2 value.places)),
    )

pub percent-IsAtMost :
    (s : ℕ) (value : Decimal)
    → is_negative value ≡ false
    → exceeds value hundred ≡ false
    → IsAtMost s (multiply (of_cents s) (subtract one (percent value)))
unfolding multiply subtract percent
percent-IsAtMost s value h e =
    let (b, hb) = nonneg value h in
    let le = exceeds-false hundred value 100 b refl hb e in
    let part =
      subtract-pos one (percent value) 1 b refl hb (omega (arith, pow-add value.places 2)) in
    let rest : ℕ = 1 * 10 ^ (value.places + 2) - b * 1 in
    let bound : rest * 100 ≤ 10 ^ (2 + (0 + (value.places + 2))) =
      omega (arith, pow-add 2 (0 + (value.places + 2)), pow-add 0 (value.places + 2)) in
    (
      _,
      multiply-pos (of_cents s) (subtract one (percent value)) s _ refl part,
      omega (arith, mul-le-mul_left s bound),
    )

-- A discount never raises a price.
pub discounted-IsAtMost :
    (type : DiscountType) (s : ℕ) (value final : Decimal)
    → is_negative value ≡ false
    → discounted type (of_cents s) value ≡ ok final
    → IsAtMost s final
unfolding discounted
discounted-IsAtMost DiscountType.fixed s value final h e =
    elim (Bool-cases (exceeds value (of_cents s))) [
      | inl over ↦ ground arith
      | inr within ↦
          let same : subtract (of_cents s) value ≡ final = ground arith in
          subst (IsAtMost s) same (subtract-IsAtMost s value h within)
    ]
discounted-IsAtMost DiscountType.percentage s value final h e =
    elim (Bool-cases (exceeds value hundred)) [
      | inl over ↦ ground arith
      | inr within ↦
          let same : multiply (of_cents s) (subtract one (percent value)) ≡ final = ground arith in
          subst (IsAtMost s) same (percent-IsAtMost s value h within)
    ]
discounted-IsAtMost DiscountType.blank s value final h e = cc
discounted-IsAtMost DiscountType.other s value final h e = cc
