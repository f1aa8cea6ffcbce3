-- ===== src/Prelude/Text.antt =====
-- Texts as lists of code points, and what the code uses of Python's `str`: `strip`, `startswith`,
-- `==` and the decimal form of an integer.
use Prim.Native.Nat.{ℕ, zero, suc, ◌+◌, ◌-◌, ◌*◌, ◌/◌, ◌%◌, ◌<◌}
use Prim.Native.Char.{code}
use Prim.Native.String.{String}
use mathlib.Core.Path.{◌≡◌, refl}
use mathlib.Core.Bool.{Bool, true, false, not, ◌&&◌, ◌||◌}
use mathlib.Core.List.{List, [], ◌∷◌, ◌++◌}
use native.Mathlib.Omega.{arith}
use mathlib.Core.Path.{ap, sym, ◌∙◌}
use zuvi_web.Prelude.Tests.{leb, ltb, ◌==◌, if◌then◌else◌, Bool-cases}
use zuvi_web.Prelude.Lists.{any}
use mathlib.Core.Logic.{inl, inr}

abbrev pub Text : Type 0
Text = List ℕ

abbrev pub text : String → Text
text String.[] = []
text (String.◌∷◌ c s) = code c ∷ text s

-- The code points for which `str.isspace` holds.
unfoldable pub is_space : ℕ → Bool
is_space c =
    (leb 9 c && leb c 13)
    || (leb 28 c && leb c 32)
    || c == 0x85
    || c == 0xa0
    || c == 0x1680
    || (leb 0x2000 c && leb c 0x200a)
    || c == 0x2028
    || c == 0x2029
    || c == 0x202f
    || c == 0x205f
    || c == 0x3000

unfoldable pub lstrip : Text → Text
unfolding is_space
lstrip [] = []
lstrip (c ∷ s) = elim (is_space c) [ true ↦ lstrip s | false ↦ c ∷ s ]

-- Drops the trailing spaces.
unfoldable pub rstrip : Text → Text
unfolding is_space
rstrip [] = []
rstrip (c ∷ s) = elim (rstrip s) [ [] ↦ if is_space c then [] else c ∷ [] | d ∷ r ↦ c ∷ d ∷ r ]

unfoldable pub strip : Text → Text
unfolding lstrip rstrip
strip s = rstrip (lstrip s)

abbrev pub is_empty : Text → Bool
is_empty [] = true
is_empty (_ ∷ _) = false

-- Python's `a or b` on texts.
abbrev pub or_else : Text → Text → Text
or_else [] b = b
or_else (c ∷ s) b = c ∷ s

abbrev pub starts_with : Text → Text → Bool
starts_with [] s = true
starts_with (p ∷ ps) [] = false
starts_with (p ∷ ps) (c ∷ s) = p == c && starts_with ps s

abbrev pub text_eq : Text → Text → Bool
text_eq [] [] = true
text_eq [] (_ ∷ _) = false
text_eq (_ ∷ _) [] = false
text_eq (a ∷ s) (b ∷ t) = a == b && text_eq s t

pub text_eq→eq : (s t : Text) → text_eq s t ≡ true → s ≡ t
text_eq→eq [] [] h = refl
text_eq→eq [] (b ∷ t) h = ground arith
text_eq→eq (a ∷ s) [] h = ground arith
text_eq→eq (a ∷ s) (b ∷ t) h = ground (arith, text_eq→eq s t)

pub text_eq_refl : (s : Text) → text_eq s s ≡ true
text_eq_refl [] = refl
text_eq_refl (a ∷ s) = ground (arith, text_eq_refl s)

-- Some character is not a space.
abbrev pub IsWritten : Text → Type 0
IsWritten given = any (λ c. not (is_space c)) given ≡ true

is_empty-rstrip : (s : Text) → is_empty (rstrip s) ≡ not (any (λ c. not (is_space c)) s)
unfolding rstrip
is_empty-rstrip [] = refl
is_empty-rstrip (c ∷ s) = ground (arith, is_empty-rstrip s)

any-lstrip : (s : Text) → any (λ c. not (is_space c)) (lstrip s) ≡ any (λ c. not (is_space c)) s
unfolding lstrip is_space
any-lstrip [] = refl
any-lstrip (c ∷ s) =
    elim (is_space c)
        as (λ b.
          is_space c ≡ b
          → any (λ c. not (is_space c)) (elim b [ true ↦ lstrip s | false ↦ c ∷ s ])
            ≡ any (λ c. not (is_space c)) (c ∷ s)) [
              | true ↦ λ space.
                  any-lstrip s ∙ ap (λ b. not b || any (λ c. not (is_space c)) s) (sym space)
              | false ↦ λ ink. refl
            ]
      refl

is_empty-strip : (s : Text) → is_empty (strip s) ≡ not (any (λ c. not (is_space c)) s)
unfolding strip
is_empty-strip s = is_empty-rstrip (lstrip s) ∙ ap not (any-lstrip s)

pub IsWritten-strip : (given : Text) → is_empty (strip given) ≡ false → IsWritten given
IsWritten-strip given h = let same = is_empty-strip given in ground arith

pub strip-IsWritten : (given : Text) → IsWritten given → is_empty (strip given) ≡ false
strip-IsWritten given h = let same = is_empty-strip given in ground arith

-- `str(n)` of a non-negative integer: its decimal digits. The fuel is the number of digits at
-- most; `decimal` gives more than there are, so that the digits read back as the number.
unfoldable pub decimal_digits : ℕ → ℕ → Text
decimal_digits zero n = []
decimal_digits (suc fuel) n =
    let more = decimal_digits fuel (n / 10) ++ (48 + n % 10) ∷ [] in
    if ltb n 10 then (48 + n) ∷ [] else more

unfoldable pub decimal : ℕ → Text
unfolding decimal_digits
decimal n = decimal_digits (suc n) n

-- Reads digits, most significant first.
abbrev read_from : ℕ → Text → ℕ
read_from acc [] = acc
read_from acc (c ∷ s) = read_from (acc * 10 + (c - 48)) s

read_from-append :
    (acc c : ℕ) (s : Text) → read_from acc (s ++ c ∷ []) ≡ read_from acc s * 10 + (c - 48)
read_from-append acc c [] = refl
read_from-append acc c (d ∷ s) = read_from-append (acc * 10 + (d - 48)) c s

read-decimal_digits : (fuel n : ℕ) → n < fuel → read_from 0 (decimal_digits fuel n) ≡ n
unfolding decimal_digits
read-decimal_digits zero n h = elim h [ ]
read-decimal_digits (suc fuel) n h = elim (Bool-cases (ltb n 10)) [
  | inl small ↦ rw small (ground arith)
  | inr large ↦ rw large (
      read_from-append 0 (48 + n % 10) (decimal_digits fuel (n / 10))
      ∙ ground (arith, read-decimal_digits fuel (n / 10)))
]

pub decimal-injective : (m n : ℕ) → decimal m ≡ decimal n → m ≡ n
unfolding decimal
decimal-injective m n e =
    sym (read-decimal_digits (suc m) m (omega arith))
    ∙ ap (read_from 0) e
    ∙ read-decimal_digits (suc n) n (omega arith)
