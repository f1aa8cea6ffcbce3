-- ===== src/Cart/Rows.antt =====
-- cart/services.py: the rows of a cart after one of its lines is written or added.
use zuvi_web.Prelude.{
  ℕ, zero, suc, ◌+◌, ◌*◌, ◌^◌, ◌≤◌, ◌≡◌, refl, sym, subst, ap, true, false, not, Option, none, some,
  List, [], ◌∷◌, ◌++◌, any, select, map, ◌==◌, arith, Bool-cases, inl, inr,
}
use zuvi_web.Prelude.Effect.{ok, raise_when}
use zuvi_web.Prelude.Apart.{Apart, any-find, any-weaken}
use zuvi_web.Catalog.{Product}
use zuvi_web.Shop.{Shop, Cart, CartItem}
use zuvi_web.Cart.Quantity.{Quantity, infinity, finite, more_than, increased, clean_quantity}
use zuvi_web.Cart.Services.{is_line, line_in, with_quantity, rewritten}
use zuvi_web.Cart.Invariant.{same_line}

-- The quantity of a product in a cart.
abbrev pub amount : Option CartItem → ℕ
amount none = 0
amount (some i) = i.quantity

-- `n` thousandths are the quantity `q`, on top of `m` thousandths, and not more than the stock.
abbrev pub Sums : (m n stock : ℕ) → Quantity → Type 0
Sums m n stock infinity = ⊥
Sums m n stock (finite digits places) =
    (n * 10 ^ places ≡ m * 10 ^ places + digits * 1000) × (n ≤ stock)

-- The line of a product in a cart is `i`, and the other lines are as they were.
pub record Placed (m : ℕ) (c : Cart) (p : Product) (q : Quantity) (rows : List CartItem)
    (r : CartItem × Shop) : Type 0 where
  pub sums : Sums m r.0.quantity p.stock_quantity q
  pub priced : r.0.unit_price_snapshot ≡ p.final_price
  pub line : line_in c.pk p.pk r.1.cart_items ≡ some r.0
  pub others :
      select (λ (j : CartItem). not (is_line c.pk p.pk j)) r.1.cart_items
      ≡ select (λ (j : CartItem). not (is_line c.pk p.pk j)) rows

pub cleaned-Sums :
    (q : Quantity) (n stock : ℕ)
    → more_than q stock ≡ false
    → clean_quantity q ≡ ok n
    → Sums 0 n stock q
unfolding clean_quantity more_than raise_when
cleaned-Sums infinity n stock h g = cc
cleaned-Sums (finite d zero) n stock h g = ground arith
cleaned-Sums (finite d (suc zero)) n stock h g = ground arith
cleaned-Sums (finite d (suc (suc zero))) n stock h g = ground arith
cleaned-Sums (finite d (suc (suc (suc zero)))) n stock h g = ground arith
cleaned-Sums (finite d (suc (suc (suc (suc places))))) n stock h g = ground arith

pub increased-Sums :
    (m : ℕ) (q : Quantity) (n stock : ℕ)
    → more_than (increased m q) stock ≡ false
    → clean_quantity (increased m q) ≡ ok n
    → Sums m n stock q
unfolding clean_quantity more_than increased raise_when
increased-Sums m infinity n stock h g = cc
increased-Sums m (finite d zero) n stock h g = ground arith
increased-Sums m (finite d (suc zero)) n stock h g = ground arith
increased-Sums m (finite d (suc (suc zero))) n stock h g = ground arith
increased-Sums m (finite d (suc (suc (suc zero)))) n stock h g = ground arith
increased-Sums m (finite d (suc (suc (suc (suc places))))) n stock h g = ground arith

pub line_in-rewritten :
    (c : Cart) (p : Product) (n : ℕ) (i : CartItem) (rows : List CartItem)
    → Apart same_line rows
    → line_in c.pk p.pk rows ≡ some i
    → line_in c.pk p.pk (map (rewritten p n i.pk) rows) ≡ some (with_quantity p n i)
line_in-rewritten c p n i [] apart h = cc
line_in-rewritten c p n i (j ∷ rows) apart h = elim (Bool-cases (is_line c.pk p.pk j)) [
  | inl here ↦
      let first : j ≡ i = ground arith in
      let mine : is_line c.pk p.pk i ≡ true =
        subst (λ (k : CartItem). is_line c.pk p.pk k ≡ true) first here in
      subst
        (λ (k : CartItem).
          line_in c.pk p.pk (map (rewritten p n i.pk) (k ∷ rows)) ≡ some (with_quantity p n i))
        (sym first) (ground arith)
  | inr on ↦
      let away = any-find (is_line c.pk p.pk) (same_line j) rows {x = i} apart.0 (ground arith) in
      let rest = line_in-rewritten c p n i rows apart.1 (ground arith) in ground arith
]

pub rewritten-away :
    (p : Product) (n pk : ℕ) (rows : List CartItem)
    → any (λ (k : CartItem). k.pk == pk) rows ≡ false
    → map (rewritten p n pk) rows ≡ rows
rewritten-away p n pk [] h = refl
rewritten-away p n pk (j ∷ rows) h = ground (arith, rewritten-away p n pk rows)

pub others-rewritten :
    (c : Cart) (p : Product) (n : ℕ) (i : CartItem) (rows : List CartItem)
    → Apart same_line rows
    → line_in c.pk p.pk rows ≡ some i
    → select (λ (j : CartItem). not (is_line c.pk p.pk j)) (map (rewritten p n i.pk) rows)
      ≡ select (λ (j : CartItem). not (is_line c.pk p.pk j)) rows
others-rewritten c p n i [] apart h = refl
others-rewritten c p n i (j ∷ rows) apart h = elim (Bool-cases (is_line c.pk p.pk j)) [
  | inl here ↦
      let first : j ≡ i = ground arith in
      let mine : is_line c.pk p.pk i ≡ true =
        subst (λ (k : CartItem). is_line c.pk p.pk k ≡ true) first here in
      let away =
        any-weaken (same_line j) (λ (k : CartItem). k.pk == i.pk) rows
          (λ k apart. let key : j.pk ≡ i.pk = ap (λ (k : CartItem). k.pk) first in ground arith)
          apart.0 in
      let rest = rewritten-away p n i.pk rows away in
      let begins : is_line c.pk p.pk (rewritten p n i.pk j) ≡ true = ground arith in ground arith
  | inr on ↦
      let away = any-find (is_line c.pk p.pk) (same_line j) rows {x = i} apart.0 (ground arith) in
      let rest = others-rewritten c p n i rows apart.1 (ground arith) in ground arith
]

pub others-inserted :
    (c : Cart) (p : Product) (i : CartItem) (rows : List CartItem)
    → is_line c.pk p.pk i ≡ true
    → select (λ (j : CartItem). not (is_line c.pk p.pk j)) (rows ++ i ∷ [])
      ≡ select (λ (j : CartItem). not (is_line c.pk p.pk j)) rows
others-inserted c p i [] h = ground arith
others-inserted c p i (j ∷ rows) h = ground (arith, others-inserted c p i rows h)
