-- ===== src/Decimal.antt =====
-- Python's `decimal.Decimal` values as the code uses them, catalog/pricing.py and
-- inventory/services.py: an exact decimal fraction and the two roundings of `quantize`.
-- The context precision of 28 digits is not met by fields of 12 and 14 digits, so products and
-- sums are exact here.
pub mod Rounding
use zuvi_web.Prelude.{ℕ, suc, ◌+◌, ◌*◌, ◌/◌, ◌%◌, ◌^◌, Bool, ltb, leb, if◌then◌else◌}
use zuvi_web.Prelude.Int.{ℤ, pos, negsuc, neg, ◌+ℤ◌, ◌-ℤ◌, ◌*ℤ◌, ltb_ℤ}

-- The value is `coefficient / 10 ^ places`.
pub record Decimal : Type 0 where
  pub coefficient : ℤ
  pub places : ℕ

-- A field of two places (money) or of three (quantities), by its number of units.
abbrev pub of_cents : ℕ → Decimal
of_cents n = record { coefficient = pos n; places = 2 }

abbrev pub of_thousandths : ℕ → Decimal
of_thousandths n = record { coefficient = pos n; places = 3 }

abbrev pub one : Decimal
one = record { coefficient = pos 1; places = 0 }

unfoldable pub is_negative : Decimal → Bool
is_negative x = ltb_ℤ x.coefficient (pos 0)

-- `x > y`.
unfoldable pub exceeds : Decimal → Decimal → Bool
unfolding ◌*ℤ◌
exceeds x y = ltb_ℤ (y.coefficient *ℤ pos (10 ^ x.places)) (x.coefficient *ℤ pos (10 ^ y.places))

unfoldable pub add : Decimal → Decimal → Decimal
unfolding ◌+ℤ◌ ◌*ℤ◌
add x y = record {
  coefficient = x.coefficient *ℤ pos (10 ^ y.places) +ℤ y.coefficient *ℤ pos (10 ^ x.places);
  places = x.places + y.places;
}

unfoldable pub subtract : Decimal → Decimal → Decimal
unfolding ◌-ℤ◌ ◌*ℤ◌
subtract x y = record {
  coefficient = x.coefficient *ℤ pos (10 ^ y.places) -ℤ y.coefficient *ℤ pos (10 ^ x.places);
  places = x.places + y.places;
}

unfoldable pub multiply : Decimal → Decimal → Decimal
unfolding ◌*ℤ◌
multiply x y = record { coefficient = x.coefficient *ℤ y.coefficient; places = x.places + y.places }

-- `x / HUNDRED`.
unfoldable pub percent : Decimal → Decimal
percent x = record { coefficient = x.coefficient; places = x.places + 2 }

-- `numerator / denominator` to the nearest integer, for a denominator above 0.
unfoldable pub round_half_up : ℕ → ℕ → ℕ
round_half_up n d = if leb d (2 * (n % d)) then n / d + 1 else n / d

unfoldable pub round_half_even : ℕ → ℕ → ℕ
round_half_even n d =
    if ltb (2 * (n % d)) d
    then n / d
    else if ltb d (2 * (n % d))
    then n / d + 1
    else n / d + (n / d) % 2

-- Both roundings are symmetric about 0.
abbrev pub quantize : (ℕ → ℕ → ℕ) → ℕ → Decimal → ℤ
quantize round digits x = elim x.coefficient [
  | pos n ↦ pos (round (n * 10 ^ digits) (10 ^ x.places))
  | negsuc n ↦ neg (round (suc n * 10 ^ digits) (10 ^ x.places))
]
