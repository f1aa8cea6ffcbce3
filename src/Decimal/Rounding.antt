-- ===== src/Decimal/Rounding.antt =====
-- What the two roundings of Decimal.antt promise: a nearest integer, exact on integers, monotone.
use native.Mathlib.Nat.{
  mul-le-mul_right, mul-lt-mul_of_pos_right, add-zero, mul-div_cancel, mul-mod_left, pow-suc,
  lt_of_mul-lt-mul_right,
}
use zuvi_web.Prelude.{ℕ, zero, suc, ◌+◌, ◌*◌, ◌^◌, ◌≤◌, ◌<◌, ◌≡◌, ap, ◌∙◌, arith}
use zuvi_web.Decimal.{round_half_up, round_half_even}

-- The result times `d` is within half of `d` of `n`.
pub round_half_up_nearest :
    (n d : ℕ)
    → 0 < d
    → (2 * n < 2 * (round_half_up n d * d) + d) × (2 * (round_half_up n d * d) ≤ 2 * n + d)
unfolding round_half_up
round_half_up_nearest n d h = grind arith

pub round_half_even_nearest :
    (n d : ℕ)
    → 0 < d
    → (2 * n ≤ 2 * (round_half_even n d * d) + d) × (2 * (round_half_even n d * d) ≤ 2 * n + d)
unfolding round_half_even
round_half_even_nearest n d h = grind arith

-- A fraction that is no larger than another rounds to a number that is no larger.
pub round_half_up_mono :
    (a d b e : ℕ) → 0 < d → 0 < e → a * e ≤ b * d → round_half_up a d ≤ round_half_up b e
round_half_up_mono a d b e hd he le =
    let p : ℕ = round_half_up a d in
    let q : ℕ = round_half_up b e in
    let near_a : 2 * (p * d) * e ≤ (2 * a + d) * e =
      mul-le-mul_right e (round_half_up_nearest a d hd).1 in
    let near_b : 2 * b * d < (2 * (q * e) + e) * d =
      mul-lt-mul_of_pos_right (round_half_up_nearest b e he).0 hd in
    let below : p * (d * e) < (q + 1) * (d * e) = omega arith in
    omega (arith, lt_of_mul-lt-mul_right (d * e) below)

pub round_half_up-mul : (n d : ℕ) → 0 < d → round_half_up (n * d) d ≡ n
unfolding round_half_up
round_half_up-mul n d h = ground (arith, mul-mod_left n d, mul-div_cancel n h)

pub round_half_even-mul : (n d : ℕ) → 0 < d → round_half_even (n * d) d ≡ n
unfolding round_half_even
round_half_even-mul n d h = ground (arith, mul-mod_left n d, mul-div_cancel n h)

pub pow-pos : (k : ℕ) → 0 < 10 ^ k
pow-pos zero = omega arith
pow-pos (suc k) = omega (arith, pow-suc 10 k, pow-pos k)

pub pow-add : (m n : ℕ) → 10 ^ (m + n) ≡ 10 ^ m * 10 ^ n
pow-add m zero = rw add-zero (omega arith)
pow-add m (suc n) =
    ap (λ (k : ℕ). 10 ^ k) (omega arith)
    ∙ pow-suc 10 (m + n)
    ∙ ap (λ (k : ℕ). k * 10) (pow-add m n)
    ∙ omega (arith, pow-suc 10 n, ap (λ (k : ℕ). 10 ^ m * k) (pow-suc 10 n))
