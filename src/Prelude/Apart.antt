-- ===== src/Prelude/Apart.antt =====
-- Lists without two members that clash, as a unique constraint keeps them, and predicates on all
-- members, under the updates and deletions of a table.
use mathlib.Core.Path.{◌≡◌, refl, ◌∙◌, subst}
use mathlib.Core.Bool.{Bool, true, false}
use mathlib.Core.Option.{some}
use mathlib.Core.List.{List, [], ◌∷◌, ◌++◌, map}
use native.Mathlib.Omega.{arith}
use zuvi_web.Prelude.Tests.{if◌then◌else◌, Bool-cases}
use zuvi_web.Prelude.Lists.{any, select, find, All, any-append}
use mathlib.Core.Logic.{inl, inr}

module _ {A : Type 0} where
  abbrev pub Apart : (A → A → Bool) → List A → Type 0
  Apart clash [] = Unit
  Apart clash (x ∷ xs) = (any (clash x) xs ≡ false) × Apart clash xs

  pub any-select :
      (p keep : A → Bool) (xs : List A) → any p xs ≡ false → any p (select keep xs) ≡ false
  any-select p keep [] h = refl
  any-select p keep (x ∷ xs) h = ground (arith, any-select p keep xs)

  any-map :
      (p q : A → Bool) (f : A → A) (xs : List A)
      → ((x : A) → p (f x) ≡ q x)
      → any p (map f xs) ≡ any q xs
  any-map p q f [] h = refl
  any-map p q f (x ∷ xs) h = ground (arith, h x, any-map p q f xs h)

  pub Apart-select :
      (clash : A → A → Bool) (keep : A → Bool) (xs : List A)
      → Apart clash xs
      → Apart clash (select keep xs)
  Apart-select clash keep [] h = tt
  Apart-select clash keep (x ∷ xs) h =
      elim (keep x) as (λ b. Apart clash (if b then x ∷ select keep xs else select keep xs)) [
        | true ↦ (any-select (clash x) keep xs h.0, Apart-select clash keep xs h.1)
        | false ↦ Apart-select clash keep xs h.1
      ]

  pub Apart-map :
      (clash : A → A → Bool) (f : A → A) (xs : List A)
      → ((x y : A) → clash (f x) (f y) ≡ clash x y)
      → Apart clash xs
      → Apart clash (map f xs)
  Apart-map clash f [] same h = tt
  Apart-map clash f (x ∷ xs) same h =
      (any-map (clash (f x)) (clash x) f xs (same x) ∙ h.0, Apart-map clash f xs same h.1)

  pub Apart-append_new :
      (clash : A → A → Bool) (xs : List A) (y : A)
      → any (λ x. clash x y) xs ≡ false
      → Apart clash xs
      → Apart clash (xs ++ y ∷ [])
  Apart-append_new clash [] y h k = (refl, tt)
  Apart-append_new clash (x ∷ xs) y h k = (
    ground (arith, any-append (clash x) xs (y ∷ []), h, k.0),
    Apart-append_new clash xs y (ground arith) k.1,
  )

  pub All-select {κ} :
      (P : A → Type κ) (keep : A → Bool) (xs : List A) → All P xs → All P (select keep xs)
  All-select P keep [] h = tt
  All-select P keep (x ∷ xs) h =
      elim (keep x) as (λ b. All P (if b then x ∷ select keep xs else select keep xs)) [
        | true ↦ (h.0, All-select P keep xs h.1)
        | false ↦ All-select P keep xs h.1
      ]

  pub All-map {κ μ} :
      (P : A → Type κ) (Q : A → Type μ) (f : A → A) (xs : List A)
      → ((x : A) → P x → Q (f x))
      → All P xs
      → All Q (map f xs)
  All-map P Q f [] h k = tt
  All-map P Q f (x ∷ xs) h k = (h x k.0, All-map P Q f xs h k.1)

  pub All-find {κ} :
      (P : A → Type κ) (p : A → Bool) (xs : List A) {x : A} → All P xs → find p xs ≡ some x → P x
  All-find P p [] k h = cc
  All-find P p (y ∷ ys) {x} k h = elim (Bool-cases (p y)) [
    | inl here ↦ let same : y ≡ x = ground arith in subst P same k.0
    | inr on ↦ All-find P p ys k.1 (ground arith)
  ]

  pub All-weaken {κ μ} :
      (P : A → Type κ) (Q : A → Type μ) (xs : List A) → ((x : A) → P x → Q x) → All P xs → All Q xs
  All-weaken P Q [] h k = tt
  All-weaken P Q (x ∷ xs) h k = (h x k.0, All-weaken P Q xs h k.1)

  pub absent-All : (p : A → Bool) (xs : List A) → any p xs ≡ false → All (λ x. p x ≡ false) xs
  absent-All p [] h = tt
  absent-All p (x ∷ xs) h = (ground arith, absent-All p xs (ground arith))

  pub any-find :
      (p q : A → Bool) (xs : List A) {x : A} → any q xs ≡ false → find p xs ≡ some x → q x ≡ false
  any-find p q xs h f = All-find (λ x. q x ≡ false) p xs (absent-All q xs h) f

  pub any-weaken :
      (p q : A → Bool) (xs : List A)
      → ((x : A) → p x ≡ false → q x ≡ false)
      → any p xs ≡ false
      → any q xs ≡ false
  any-weaken p q [] h k = refl
  any-weaken p q (x ∷ xs) h k = ground (arith, h x, any-weaken p q xs h)

  pub find-holds : (p : A → Bool) (xs : List A) {x : A} → find p xs ≡ some x → p x ≡ true
  find-holds p [] h = cc
  find-holds p (y ∷ ys) {x} h = elim (Bool-cases (p y)) [
    | inl here ↦ let same : y ≡ x = ground arith in subst (λ z. p z ≡ true) same here
    | inr on ↦ find-holds p ys (ground arith)
  ]
