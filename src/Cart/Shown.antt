-- ===== src/Cart/Shown.antt =====
-- cart/services.py: the lines that the page of a cart shows, one by one.
use zuvi_web.Prelude.{
  ℕ, ◌+◌, ◌≡◌, refl, subst, ap, Bool, true, false, ◌||◌, Option, none, some, List, [], ◌∷◌, any,
  find, select, map, ◌==◌, arith, Bool-cases, inl, inr, sum_of,
}
use zuvi_web.Prelude.Apart.{Apart, any-find, any-weaken}
use zuvi_web.Catalog.{Product}
use zuvi_web.Stores.{Store}
use zuvi_web.Inventory.Model.{product_row}
use zuvi_web.Shop.{Shop, Cart, CartItem, store_row}
use zuvi_web.Cart.Services.{is_own_line}
use zuvi_web.Cart.Invariant.{same_cart}
use zuvi_web.Cart.Presentation.{
  PortalLine, joined, joined_all, total_of, is_warned, build_cart_item_presentation, cons_some,
}

-- Products have keys of their own, and a line has its product and the store of it, as the foreign
-- keys demand.
abbrev pub same_product : Product → Product → Bool
same_product a b = a.pk == b.pk

pub record IsLinked (s : Shop) (i : CartItem) : Type 0 where
  pub p : Product
  pub store : Store
  pub has_product : product_row i.product s.inventory.products ≡ some p
  pub has_store : store_row p.store s.stores ≡ some store

abbrev pub shown_total : List ℕ → Option PortalLine → ℕ
shown_total ids none = 0
shown_total ids (some l) = total_of (build_cart_item_presentation ids l)

abbrev pub warned : List ℕ → Option PortalLine → Bool
warned ids none = false
warned ids (some l) = is_warned (build_cart_item_presentation ids l)

pub absent-listed :
    (keep : Product → Bool) (pk : ℕ) (rows : List Product)
    → any (λ (r : Product). r.pk == pk) rows ≡ false
    → any (λ k. k == pk) (map (λ (p : Product). p.pk) (select keep rows)) ≡ false
absent-listed keep pk [] h = refl
absent-listed keep pk (r ∷ rows) h = ground (arith, absent-listed keep pk rows)

-- A product that is on the list of the available ones is public.
pub listed-public :
    (keep : Product → Bool) (pk : ℕ) (rows : List Product) (p : Product)
    → Apart same_product rows
    → product_row pk rows ≡ some p
    → any (λ k. k == pk) (map (λ (p : Product). p.pk) (select keep rows)) ≡ true
    → keep p ≡ true
listed-public keep pk [] p apart h g = cc
listed-public keep pk (r ∷ rows) p apart h g = elim (Bool-cases (r.pk == pk)) [
  | inl here ↦
      let first : r ≡ p = ground arith in
      let gone = absent-listed keep pk rows (
        any-weaken (same_product r) (λ (q : Product). q.pk == pk) rows (λ q off. ground arith)
          apart.0) in
      let kept : keep r ≡ true = ground arith in subst (λ q. keep q ≡ true) first kept
  | inr on ↦ listed-public keep pk rows p apart.1 (ground arith) (ground arith)
]

pub own_line-none :
    (who : ℕ) (d : Cart) (rows : List Cart) (i : CartItem)
    → d.customer ≡ who
    → any (same_cart d) rows ≡ false
    → is_own_line who rows i ≡ false
unfolding is_own_line
own_line-none who d [] i h off = refl
own_line-none who d (e ∷ rows) i h off = ground (arith, own_line-none who d rows i h)

pub own_line-in_cart :
    (who : ℕ) (c : Cart) (rows : List Cart) (i : CartItem)
    → Apart same_cart rows
    → find (λ (d : Cart). d.customer == who) rows ≡ some c
    → is_own_line who rows i ≡ (i.cart == c.pk)
unfolding is_own_line
own_line-in_cart who c [] i apart h = cc
own_line-in_cart who c (d ∷ rows) i apart h = elim (Bool-cases (d.customer == who)) [
  | inl here ↦
      let first : d ≡ c = ground arith in
      let key : d.pk ≡ c.pk = ap (λ (d : Cart). d.pk) first in
      let none_else = own_line-none who d rows i (ground arith) apart.0 in ground arith
  | inr on ↦
      let away =
        any-find (λ (d : Cart). d.customer == who) (same_cart d) rows {x = c} apart.0
          (ground arith) in
      let rest = own_line-in_cart who c rows i apart.1 (ground arith) in ground arith
]

pub select-same :
    {A : Type 0} (p q : A → Bool) (xs : List A) → ((x : A) → p x ≡ q x) → select p xs ≡ select q xs
select-same p q [] h = refl
select-same p q (x ∷ xs) h = ground (arith, h x, select-same p q xs h)

pub joined-sum :
    (ids : List ℕ) (s : Shop) (items : List CartItem)
    → sum_of (λ l. total_of (build_cart_item_presentation ids l)) (joined_all s items)
      ≡ sum_of (λ i. shown_total ids (joined s i)) items
joined-sum ids s [] = refl
joined-sum ids s (i ∷ items) =
    elim (joined s i)
      as (λ o.
        sum_of (λ l. total_of (build_cart_item_presentation ids l))
          (cons_some o (joined_all s items))
        ≡ shown_total ids o + sum_of (λ i. shown_total ids (joined s i)) items) [
          | none ↦ omega (arith, joined-sum ids s items)
          | some l ↦ omega (arith, joined-sum ids s items)
        ]

pub joined-warned :
    (ids : List ℕ) (s : Shop) (items : List CartItem)
    → any (λ l. is_warned (build_cart_item_presentation ids l)) (joined_all s items)
      ≡ any (λ i. warned ids (joined s i)) items
joined-warned ids s [] = refl
joined-warned ids s (i ∷ items) =
    elim (joined s i)
      as (λ o.
        any (λ l. is_warned (build_cart_item_presentation ids l)) (cons_some o (joined_all s items))
        ≡ warned ids o || any (λ i. warned ids (joined s i)) items) [
          | none ↦ joined-warned ids s items
          | some l ↦ ground (arith, joined-warned ids s items)
        ]
