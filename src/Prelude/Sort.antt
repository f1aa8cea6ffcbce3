-- ===== src/Prelude/Sort.antt =====
-- Python's `sorted`, which is stable, and `itertools.groupby`, with the sums that both keep.
use Prim.Native.Nat.{ℕ, ◌+◌}
use mathlib.Core.Path.{◌≡◌, refl}
use mathlib.Core.Bool.{Bool, true, false, ◌||◌}
use mathlib.Core.List.{List, [], ◌∷◌}
use native.Mathlib.Omega.{arith}
use zuvi_web.Prelude.Tests.{◌==◌, if◌then◌else◌}
use zuvi_web.Prelude.Lists.{sum_of, any, All}

-- A run of members with one key: `groupby` yields no empty group.
pub record Group {ℓ} (A : Type ℓ) : Type ℓ where
  pub key : ℕ
  pub first : A
  pub rest : List A

abbrev pub members {ℓ} : {A : Type ℓ} → Group A → List A
members g = g.first ∷ g.rest

module _ {ℓ} {A : Type ℓ} where
  unfoldable pub insert_by : (A → A → Bool) → A → List A → List A
  insert_by le x [] = x ∷ []
  insert_by le x (y ∷ ys) = let rest = insert_by le x ys in if le x y then x ∷ y ∷ ys else y ∷ rest

  unfoldable pub sort_by : (A → A → Bool) → List A → List A
  unfolding insert_by
  sort_by le [] = []
  sort_by le (x ∷ xs) = insert_by le x (sort_by le xs)

  abbrev pub alone_in : (A → ℕ) → A → Group A
  alone_in key x = record { key = key x; first = x; rest = [] }

  unfoldable pub join_group : (A → ℕ) → A → List (Group A) → List (Group A)
  join_group key x [] = alone_in key x ∷ []
  join_group key x (g ∷ gs) =
      if key x == g.key
      then record { key = g.key; first = x; rest = g.first ∷ g.rest } ∷ gs
      else alone_in key x ∷ g ∷ gs

  unfoldable pub group_by : (A → ℕ) → List A → List (Group A)
  unfolding join_group
  group_by key [] = []
  group_by key (x ∷ xs) = join_group key x (group_by key xs)

  module _ (p : A → Bool) where
    insert-any :
        (le : A → A → Bool) (x : A) (xs : List A) → any p (insert_by le x xs) ≡ p x || any p xs
    unfolding insert_by
    insert-any le x [] = refl
    insert-any le x (y ∷ ys) = ground (arith, insert-any le x ys)

    pub sort-any : (le : A → A → Bool) (xs : List A) → any p (sort_by le xs) ≡ any p xs
    unfolding sort_by
    sort-any le [] = refl
    sort-any le (x ∷ xs) = ground (arith, insert-any le x (sort_by le xs), sort-any le xs)

    abbrev pub group_any : Group A → Bool
    group_any g = any p (members g)

    join-any :
        (key : A → ℕ) (x : A) (gs : List (Group A))
        → any group_any (join_group key x gs) ≡ p x || any group_any gs
    unfolding join_group
    join-any key x [] = ground arith
    join-any key x (g ∷ gs) = ground arith

    pub group-any : (key : A → ℕ) (xs : List A) → any group_any (group_by key xs) ≡ any p xs
    unfolding group_by
    group-any key [] = refl
    group-any key (x ∷ xs) = ground (arith, join-any key x (group_by key xs), group-any key xs)

  module _ {κ} (P : A → Type κ) where
    insert-All :
        (le : A → A → Bool) (x : A) (xs : List A) → P x → All P xs → All P (insert_by le x xs)
    unfolding insert_by
    insert-All le x [] h k = (h, tt)
    insert-All le x (y ∷ ys) h k =
        elim (le x y) as (λ b. All P (if b then x ∷ y ∷ ys else y ∷ insert_by le x ys)) [
          | true ↦ (h, k)
          | false ↦ (k.0, insert-All le x ys h k.1)
        ]

    pub sort-All : (le : A → A → Bool) (xs : List A) → All P xs → All P (sort_by le xs)
    unfolding sort_by
    sort-All le [] h = tt
    sort-All le (x ∷ xs) h = insert-All le x (sort_by le xs) h.0 (sort-All le xs h.1)

  module _ (f : A → ℕ) where
    insert-sum_of :
        (le : A → A → Bool) (x : A) (xs : List A) → sum_of f (insert_by le x xs) ≡ f x + sum_of f xs
    unfolding insert_by
    insert-sum_of le x [] = refl
    insert-sum_of le x (y ∷ ys) = ground (arith, insert-sum_of le x ys)

    pub sort-sum_of : (le : A → A → Bool) (xs : List A) → sum_of f (sort_by le xs) ≡ sum_of f xs
    unfolding sort_by
    sort-sum_of le [] = refl
    sort-sum_of le (x ∷ xs) = omega (arith, insert-sum_of le x (sort_by le xs), sort-sum_of le xs)

    abbrev pub group_sum : Group A → ℕ
    group_sum g = sum_of f (members g)

    join-sum_of :
        (key : A → ℕ) (x : A) (gs : List (Group A))
        → sum_of group_sum (join_group key x gs) ≡ f x + sum_of group_sum gs
    unfolding join_group
    join-sum_of key x [] = omega arith
    join-sum_of key x (g ∷ gs) = ground arith

    pub group-sum_of :
        (key : A → ℕ) (xs : List A) → sum_of group_sum (group_by key xs) ≡ sum_of f xs
    unfolding group_by
    group-sum_of key [] = refl
    group-sum_of key (x ∷ xs) =
        omega (arith, join-sum_of key x (group_by key xs), group-sum_of key xs)
