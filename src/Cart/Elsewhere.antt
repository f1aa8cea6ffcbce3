-- ===== src/Cart/Elsewhere.antt =====
-- cart/services.py: writes that miss the lines of another cart.
use zuvi_web.Prelude.{
  ℕ, ◌<◌, ◌≡◌, ◌≢◌, refl, sym, subst, ap, Bool, false, not, some, List, [], ◌∷◌, ◌++◌, any, find,
  select, map, ◌==◌, All, arith, Bool-cases, inl, inr,
}
use zuvi_web.Prelude.Apart.{Apart, All-weaken, absent-All, any-find, any-weaken, any-select}
use zuvi_web.Catalog.{Product}
use zuvi_web.Shop.{Shop, Cart, CartItem}
use zuvi_web.Cart.Services.{rewritten, Meanwhile}
use zuvi_web.Cart.Invariant.{same_cart, same_line, IsTidy}
use zuvi_web.Cart.Calls.{IsQuiet}

abbrev pub of_cart : ℕ → CartItem → Bool
of_cart d i = i.cart == d

abbrev pub IsOf : (other d : ℕ) → Cart → Type 0
IsOf other d c = c.pk ≡ d → c.customer ≡ other

-- No other session is between.
pub record IsAlone (w : Meanwhile) : Type 0 where
  pub cleaning : (s : Shop) → w.before_clean s ≡ s
  pub saving : (s : Shop) → w.before_save s ≡ s

pub alone-IsQuiet : (w : Meanwhile) → IsAlone w → IsQuiet w
alone-IsQuiet w alone = record {
  cleaning = λ s v. subst IsTidy (sym (alone.cleaning s)) v;
  saving = λ s v. subst IsTidy (sym (alone.saving s)) v;
}

-- The cart `d` is another customer's, and its lines are these.
pub record Untouched (other d : ℕ) (lines : List CartItem) (s : Shop) : Type 0 where
  pub tidy : IsTidy s
  pub owner : All (IsOf other d) s.carts
  pub known : d < s.next_cart
  pub same : select (of_cart d) s.cart_items ≡ lines

abbrev pub NotCart : ℕ → Cart → Type 0
NotCart d c = c.pk ≢ d

-- A line that is not among these, and not of the cart.
abbrev pub Elsewhere : ℕ → List CartItem → CartItem → Type 0
Elsewhere d lines i = any (λ (j : CartItem). j.pk == i.pk) lines ≡ false

pub owner_unique :
    (other : ℕ) (e : Cart) (rows : List Cart)
    → Apart same_cart rows
    → find (λ (c : Cart). c.customer == other) rows ≡ some e
    → All (IsOf other e.pk) rows
owner_unique other e [] apart h = tt
owner_unique other e (c ∷ rows) apart h = elim (Bool-cases (c.customer == other)) [
  | inl here ↦ (
    (λ _. ground arith),
    All-weaken (λ d. same_cart c d ≡ false) (IsOf other e.pk) rows
        (λ d off same.
          let first : c ≡ e = ground arith in
          let key : c.pk ≡ e.pk = ap (λ (c : Cart). c.pk) first in ground arith)
        (absent-All (same_cart c) rows apart.0),
  )
  | inr on ↦ (
    (λ same.
        let off =
          any-find (λ (c : Cart). c.customer == other) (same_cart c) rows {x = e} apart.0
            (ground arith) in
        ground arith),
    owner_unique other e rows apart.1 (ground arith),
  )
]

pub elsewhere :
    (d : ℕ) (p : CartItem → Bool) (i : CartItem) (rows : List CartItem)
    → Apart same_line rows
    → find p rows ≡ some i
    → i.cart ≢ d
    → Elsewhere d (select (of_cart d) rows) i
elsewhere d p i [] apart h off = cc
elsewhere d p i (j ∷ rows) apart h off = elim (Bool-cases (p j)) [
  | inl here ↦
      let first : j ≡ i = ground arith in
      let kept : any (λ (k : CartItem). k.pk == i.pk) rows ≡ false =
        any-weaken (same_line j) (λ (k : CartItem). k.pk == i.pk) rows
          (λ k apart. let key : j.pk ≡ i.pk = cc in ground arith) apart.0 in
      let away : j.cart ≢ d = subst (λ (k : CartItem). k.cart ≢ d) (sym first) off in
      let rest = any-select (λ (k : CartItem). k.pk == i.pk) (of_cart d) rows kept in ground arith
  | inr on ↦
      let apart_from = any-find p (same_line j) rows {x = i} apart.0 (ground arith) in
      let rest = elsewhere d p i rows apart.1 (ground arith) off in ground arith
]

pub rewrite-Elsewhere :
    (p : Product) (n d : ℕ) (i : CartItem) (rows : List CartItem)
    → Elsewhere d (select (of_cart d) rows) i
    → select (of_cart d) (map (rewritten p n i.pk) rows) ≡ select (of_cart d) rows
rewrite-Elsewhere p n d i [] h = refl
rewrite-Elsewhere p n d i (j ∷ rows) h = ground (arith, rewrite-Elsewhere p n d i rows)

pub delete-Elsewhere :
    (d : ℕ) (i : CartItem) (rows : List CartItem)
    → Elsewhere d (select (of_cart d) rows) i
    → select (of_cart d) (select (λ (j : CartItem). not (j.pk == i.pk)) rows)
      ≡ select (of_cart d) rows
delete-Elsewhere d i [] h = refl
delete-Elsewhere d i (j ∷ rows) h = ground (arith, delete-Elsewhere d i rows)

pub deletes-Elsewhere :
    (d k : ℕ) (rows : List CartItem)
    → k ≢ d
    → select (of_cart d) (select (λ (j : CartItem). not (j.cart == k)) rows)
      ≡ select (of_cart d) rows
deletes-Elsewhere d k [] h = refl
deletes-Elsewhere d k (j ∷ rows) h = ground (arith, deletes-Elsewhere d k rows h)

pub insert-Elsewhere :
    (d : ℕ) (i : CartItem) (rows : List CartItem)
    → i.cart ≢ d
    → select (of_cart d) (rows ++ i ∷ []) ≡ select (of_cart d) rows
insert-Elsewhere d i [] h = ground arith
insert-Elsewhere d i (j ∷ rows) h = ground (arith, insert-Elsewhere d i rows h)
