-- ===== src/Orders/Numbers/Fresh.antt =====
-- What the loops that draw a number and write a numbered row promise, orders/services.py and
-- orders/models.py.
use zuvi_web.Prelude.{
  ℕ, zero, suc, ◌+◌, ◌-◌, ◌≤◌, ◌<◌, ◌≡◌, refl, sym, ap, ◌∙◌, subst, Bool, true, false, Option, none,
  some, arith, List, Bool-cases, inl, inr, ◌⊎◌, [], ◌∷◌, ◌++◌, ◌==◌,
}
use zuvi_web.Prelude.Text.{Text, text, text_eq, text_eq→eq, text_eq_refl}
use zuvi_web.Prelude.Effect.{ok, runtime, ran, and_then-eq-ok, or_raise-eq-ok, Action}
use zuvi_web.Shop.{Shop, PlacedOrder}
use zuvi_web.Orders.Numbers.{
  generate_number, order_number_taken, Draws, generate_order_number, written, unless_saved,
  save_once, save_numbered,
}

-- The candidates of the rounds `i`, …, `i + n - 1` are all taken.
abbrev pub AllTaken : (Text → Bool) → (ℕ → Text) → (n i : ℕ) → Type 0
AllTaken taken draw n i = (j : ℕ) → i ≤ j → j < i + n → taken (draw j) ≡ true

-- The first free candidate, or none.
abbrev pub FirstFree : (Text → Bool) → (ℕ → Text) → (n i : ℕ) → Option Text → Type 0
FirstFree taken draw n i none = AllTaken taken draw n i
FirstFree taken draw n i (some c) =
    (j : ℕ) × (i ≤ j)
    × (j < i + n)
    × (c ≡ draw j)
    × (taken c ≡ false)
    × AllTaken taken draw (j - i) i

module _ (taken : Text → Bool) (draw : ℕ → Text) where
  take_later :
      (n i : ℕ) (r : Option Text)
      → taken (draw i) ≡ true
      → FirstFree taken draw n (i + 1) r
      → FirstFree taken draw (suc n) i r
  take_later n i none held rest = λ j ge lt. elim (Bool-cases (j == i)) [
    | inl here ↦ let e : j ≡ i = ground arith in ap (λ (k : ℕ). taken (draw k)) e ∙ held
    | inr later ↦ rest j (ground arith) (omega arith)
  ]
  take_later n i (some c) held (j, ge, lt, e, free, before) = (
    j,
    omega arith,
    omega arith,
    e,
    free,
    λ k below above. elim (Bool-cases (k == i)) [
      | inl here ↦ let e' : k ≡ i = ground arith in ap (λ (m : ℕ). taken (draw m)) e' ∙ held
      | inr later ↦ before k (ground arith) (omega arith)
    ],
  )

  pub generate_first : (n i : ℕ) → FirstFree taken draw n i (generate_number taken draw n i)
  unfolding generate_number
  generate_first zero i = λ j ge lt. absurd (omega arith)
  generate_first (suc n) i = elim (Bool-cases (taken (draw i))) [
    | inl held ↦
        rw held
          (take_later n i (generate_number taken draw n (i + 1)) held (generate_first n (i + 1)))
    | inr free ↦ rw free (i, omega arith, omega arith, refl, free, λ j ge lt. absurd (omega arith))
  ]

-- Some order has the number.
abbrev pub Holds : List PlacedOrder → Text → Type 0
Holds [] number = ⊥
Holds (o ∷ rows) number = (o.order.order_number ≡ number) ⊎ Holds rows number

-- The first candidate that no order has, or none of the 32.
abbrev pub FirstUnused : List PlacedOrder → (ℕ → Text) → Option Text → Type 0
FirstUnused rows draw none = (j : ℕ) → j < 32 → Holds rows (draw j)
FirstUnused rows draw (some number) =
    (j : ℕ) × (j < 32)
    × (number ≡ draw j)
    × ¬ Holds rows number
    × ((i : ℕ) → i < j → Holds rows (draw i))

taken-Holds :
    (rows : List PlacedOrder) (number : Text)
    → order_number_taken rows number ≡ true
    → Holds rows number
unfolding order_number_taken
taken-Holds [] number h = cc
taken-Holds (o ∷ rows) number h = elim (Bool-cases (text_eq o.order.order_number number)) [
  | inl same ↦ inl (text_eq→eq o.order.order_number number same)
  | inr other ↦ inr (taken-Holds rows number (ground arith))
]

Holds-taken :
    (rows : List PlacedOrder) (number : Text)
    → Holds rows number
    → order_number_taken rows number ≡ true
unfolding order_number_taken
Holds-taken [] number h = elim h [ ]
Holds-taken (o ∷ rows) number (inl same) =
    let equal : text_eq o.order.order_number number ≡ true =
      subst (λ (t : Text). text_eq o.order.order_number t ≡ true) same
        (text_eq_refl o.order.order_number) in
    ground arith
Holds-taken (o ∷ rows) number (inr later) = let rest = Holds-taken rows number later in ground arith

first-unused :
    (rows : List PlacedOrder) (draw : ℕ → Text) (r : Option Text)
    → FirstFree (order_number_taken rows) draw 32 0 r
    → FirstUnused rows draw r
first-unused rows draw none all =
    λ j lt. taken-Holds rows (draw j) (all j (omega arith) (omega arith))
first-unused rows draw (some number) (j, ge, lt, same, free, before) = (
  j,
  omega arith,
  same,
  (λ held. let taken = Holds-taken rows number held in cc),
  (λ i below. taken-Holds rows (draw i) (before i (omega arith) (omega arith))),
)

-- The number of an order is the first of 32 candidates that no order has, each of them the prefix, the
-- date and the random characters; and there is none only where orders have all 32 of them.
pub generate_order_number_first :
    (d : Draws) (attempt : ℕ) (rows : List PlacedOrder)
    → FirstUnused rows
        (λ i. text "ORD-" ++ (d.date ++ (text "-" ++ d.token attempt i)))
        (generate_order_number d attempt rows)
unfolding generate_order_number
generate_order_number_first d attempt rows =
    first-unused rows (λ i. text "ORD-" ++ (d.date ++ (text "-" ++ d.token attempt i))) _
      (generate_first (order_number_taken rows)
        (λ i. text "ORD-" ++ (d.date ++ (text "-" ++ d.token attempt i))) 32 0)

module _ {A : Type 0} (generate : ℕ → Shop → Option Text) (others : ℕ → Shop → Shop)
    (violates : Text → Shop → Bool) (insert : Text → Shop → A × Shop) (P : Shop → Type 0)
    (keep : (k : ℕ) (s : Shop) → P s → P (others k s)) where
  -- A row that was written to tables with `P`, or tables with `P`.
  abbrev pub Saved : Option A × Shop → Type 0
  Saved (none, t) = P t
  Saved (some a, t) =
      (number : Text) × (u : Shop) × P u × (violates number u ≡ false) × (insert number u ≡ (a, t))

  written-Saved :
      (number : Text) (u : Shop) (b : Bool)
      → violates number u ≡ b
      → P u
      → Saved (written generate others violates insert b number u)
  written-Saved number u true e p = p
  written-Saved number u false e p = (number, u, p, e, refl)

  save_once-Saved :
      (k : ℕ) (s : Shop) {r : Option A × Shop}
      → save_once generate others violates insert k s ≡ ok r
      → P s
      → Saved r
  unfolding save_once
  save_once-Saved k s {r} h p =
      let (number, drawn, h₁) = or_raise-eq-ok runtime (generate k s) _ s (ran s s _ h) in
      let h₂ = ran tt (others k s) _ h₁ in
      let same : written generate others violates insert (violates number (others k s)) number
            (others k s)
          ≡ r =
        cc in
      subst Saved same (written-Saved number (others k s) _ refl (keep k s p))

  -- After one attempt.
  unless-Saved :
      (o : Option A) (t : Shop) (again : Action Shop (Option A)) {r : Option A × Shop}
      → ((q : Option A × Shop) → again t ≡ ok q → P t → Saved q)
      → Saved (o, t)
      → unless_saved generate others violates insert o again t ≡ ok r
      → Saved r
  unless-Saved none t again {r} later q h = later r h q
  unless-Saved (some a) t again {r} later q h =
      let same : r ≡ (some a, t) = cc in subst Saved (sym same) q

  pub save_numbered-Saved :
      (n k : ℕ) (s : Shop) {r : Option A × Shop}
      → save_numbered generate others violates insert n k s ≡ ok r
      → P s
      → Saved r
  unfolding save_numbered
  save_numbered-Saved zero k s {r} h p = let same : r ≡ (none, s) = cc in subst Saved (sym same) p
  save_numbered-Saved (suc n) k s {r} h p =
      let (o, t, first, h₁) = and_then-eq-ok (save_once generate others violates insert k s) _ h in
      unless-Saved o t (save_numbered generate others violates insert n (k + 1))
        (λ q run p'. save_numbered-Saved n (k + 1) t run p') (save_once-Saved k s first p) h₁
