-- ===== src/Cart/Preview.antt =====
-- cart/services.py and orders/checkout.py: the total that the page of a cart shows, and the one that
-- checkout charges.
use zuvi_web.Prelude.{
  ℕ, ◌<◌, ◌≡◌, refl, sym, subst, ap, ◌∙◌, Bool, true, false, some, List, [], ◌∷◌, any, select, map,
  ◌==◌, All, arith, Option-cases, inl, inr, sum_of,
}
use zuvi_web.Prelude.Effect.{ok, bind, raise_when}
use zuvi_web.Prelude.Sort.{sort_by, sort-sum_of, group-sum_of, sort-any, group-any, sort-All}
use zuvi_web.Prelude.Apart.{Apart, All-select, find-holds}
use zuvi_web.Catalog.{Product}
use zuvi_web.Catalog.Public.{is_public, is_public_row}
use zuvi_web.Stores.{Store}
use zuvi_web.Inventory.Model.{product_row}
use zuvi_web.Shop.{Shop, Cart, CartItem}
use zuvi_web.Cart.{cart_of}
use zuvi_web.Cart.Services.{is_own_line}
use zuvi_web.Cart.Invariant.{IsTidy, IsAmount}
use zuvi_web.Cart.Presentation.{
  PortalLine, joined, portal_cart_items, publicly_available_product_ids, Presentation, total_of,
  is_warned, build_cart_item_presentation, presentations, build_cart_view_context, view_of,
}
use zuvi_web.Orders.Validation.{
  Line, by_product, line_amount, line_of, validate_sellable_product, build_validated_line,
  build_validated_lines,
}
use zuvi_web.Orders.Checkout.OrderRow.{lines_subtotal}
use zuvi_web.Orders.Checkout.Completed.{in_cart}
use zuvi_web.Cart.Shown.{
  same_product, IsLinked, shown_total, warned, listed-public, own_line-in_cart, select-same,
  joined-sum, joined-warned,
}

-- A line without a warning passes the checks of checkout, at the total that is shown.
unwarned-known :
    (today : ℕ) (available : List ℕ) (i : CartItem) (p : Product) (store : Store)
    → (0 < i.quantity)
    → (any (λ k. k == p.pk) available ≡ true → is_public today p (some store) ≡ true)
    → warned available (some (record { item = i; product = p; store = store })) ≡ false
    → (v : Line) × (bind
          (validate_sellable_product today p (some store) i.quantity)
          (λ _. line_of i p (some store) p.final_price)
        ≡ ok v)
      × (v.line_total
          ≡ shown_total available (some (record { item = i; product = p; store = store })))
unfolding build_cart_item_presentation validate_sellable_product line_of raise_when bind is_public
unwarned-known today available i p store above public calm =
    let shown : any (λ k. k == p.pk) available ≡ true = ground arith in
    let sold = public shown in
    elim (Option-cases p.final_price) [
      | inl free ↦ let unsold : is_public today p (some store) ≡ false = ground arith in cc
      | inr (price, priced) ↦
          let valid : validate_sellable_product today p (some store) i.quantity ≡ ok tt =
            ground arith in
          (
            record {
              cart_item = i;
              product = p;
              store = store;
              quantity = i.quantity;
              unit_price = price;
              line_total = line_amount price i.quantity;
            },
            ground (arith, valid),
            ground arith,
          )
    ]

unwarned-line :
    (today : ℕ) (available : List ℕ) (s : Shop) (i : CartItem) (l : IsLinked s i)
    → (0 < i.quantity)
    → (any (λ k. k == l.p.pk) available ≡ true → is_public_row today s.stores l.p ≡ true)
    → warned available (joined s i) ≡ false
    → (v : Line) × (build_validated_line today s i (product_row i.product s.inventory.products)
        ≡ ok v)
      × (v.line_total ≡ shown_total available (joined s i))
unfolding joined build_validated_line
unwarned-line today available s i l above public calm =
    let known : joined s i ≡ some (record { item = i; product = l.p; store = l.store }) =
      rw (l.has_product, l.has_store) in
    let (v, passes, total) =
      unwarned-known today available i l.p l.store above
        (λ shown. subst (λ o. is_public today l.p o ≡ true) l.has_store (public shown))
        (subst (λ o. warned available o ≡ false) known calm) in
    (
      v,
      ap (build_validated_line today s i) l.has_product
          ∙ ap
              (λ o.
                bind (validate_sellable_product today l.p o i.quantity)
                  λ _. line_of i l.p o l.p.final_price)
              l.has_store
          ∙ passes,
      total ∙ sym (ap (shown_total available) known),
    )

-- A line of positive quantity with its rows.
IsSound : Shop → CartItem → Type 0
IsSound s i = (0 < i.quantity) × IsLinked s i

unwarned-lines :
    (today : ℕ) (ids : List ℕ) (s : Shop) (items : List CartItem)
    → Apart same_product s.inventory.products
    → All (IsSound s) items
    → any (λ i. warned (publicly_available_product_ids today s ids) (joined s i)) items ≡ false
    → (ls : List Line) × (build_validated_lines today s items ≡ ok ls)
      × (lines_subtotal ls
          ≡ sum_of
              (λ i. shown_total (publicly_available_product_ids today s ids) (joined s i))
              items)
unfolding build_validated_lines lines_subtotal IsSound bind publicly_available_product_ids
unwarned-lines today ids s [] apart all calm = ([], refl, refl)
unwarned-lines today ids s (i ∷ items) apart all calm =
    let available = publicly_available_product_ids today s ids in
    let l = all.0.1 in
    let found =
      find-holds (λ (p : Product). p.pk == i.product) s.inventory.products l.has_product in
    let key : l.p.pk ≡ i.product = ground arith in
    let (v, passes, total) =
      unwarned-line today available s i l all.0.0
        (λ shown.
          let kept =
            listed-public _ i.product s.inventory.products l.p apart l.has_product
              (subst (λ n. any (λ k. k == n) available ≡ true) key shown) in
          ground arith)
        (ground arith) in
    let (vs, pass, totals) = unwarned-lines today ids s items apart all.1 (ground arith) in
    (
      v ∷ vs,
      ap (λ r. bind r λ l. bind (build_validated_lines today s items) λ ls. ok (l ∷ ls)) passes
          ∙ ap (λ r. bind r λ ls. ok (v ∷ ls)) pass,
      omega (arith, total, totals),
    )

all-IsSound :
    (s : Shop) (items : List CartItem)
    → All IsAmount items
    → All (IsLinked s) items
    → All (IsSound s) items
unfolding IsSound
all-IsSound s [] h k = tt
all-IsSound s (i ∷ items) h k = ((h.0.0, k.0), all-IsSound s items h.1 k.1)

any-of_map :
    {A B : Type 0} (p : B → Bool) (f : A → B) (xs : List A)
    → any p (map f xs) ≡ any (λ x. p (f x)) xs
any-of_map p f [] = refl
any-of_map p f (x ∷ xs) = ground (arith, any-of_map p f xs)

sum_of-map :
    {A B : Type 0} (g : B → ℕ) (f : A → B) (xs : List A)
    → sum_of g (map f xs) ≡ sum_of (λ x. g (f x)) xs
sum_of-map g f [] = refl
sum_of-map g f (x ∷ xs) = omega (arith, sum_of-map g f xs)

abbrev listed_ids : (PortalLine → PortalLine → Bool) → (who : ℕ) → Shop → List ℕ
listed_ids le who s =
    map (λ (l : PortalLine). l.item.product) (sort_by le (portal_cart_items who s))

-- The page passes over the lines of the cart in its own order, and warns as they do one by one.
shown-warned :
    (today : ℕ) (le : PortalLine → PortalLine → Bool) (who : ℕ) (s : Shop) (c : Cart)
    → IsTidy s
    → cart_of who s ≡ some c
    → any is_warned (presentations today le who s)
      ≡ any
          (λ i. warned (publicly_available_product_ids today s (listed_ids le who s)) (joined s i))
          (in_cart c s)
unfolding presentations portal_cart_items
shown-warned today le who s c v mine =
    let ids = publicly_available_product_ids today s (listed_ids le who s) in
    any-of_map is_warned (build_cart_item_presentation ids) (sort_by le (portal_cart_items who s))
    ∙ sort-any (λ l. is_warned (build_cart_item_presentation ids l)) le (portal_cart_items who s)
    ∙ joined-warned ids s (select (is_own_line who s.carts) s.cart_items)
    ∙ ap (any (λ i. warned ids (joined s i))) (
        select-same (is_own_line who s.carts) (λ (i : CartItem). i.cart == c.pk) s.cart_items
          (λ i. own_line-in_cart who c s.carts i v.carts mine))

shown-total :
    (today : ℕ) (le : PortalLine → PortalLine → Bool) (who : ℕ) (s : Shop) (c : Cart)
    → IsTidy s
    → cart_of who s ≡ some c
    → sum_of total_of (presentations today le who s)
      ≡ sum_of
          (λ i.
            shown_total (publicly_available_product_ids today s (listed_ids le who s)) (joined s i))
          (in_cart c s)
unfolding presentations portal_cart_items
shown-total today le who s c v mine =
    let ids = publicly_available_product_ids today s (listed_ids le who s) in
    sum_of-map total_of (build_cart_item_presentation ids) (sort_by le (portal_cart_items who s))
    ∙ sort-sum_of (λ l. total_of (build_cart_item_presentation ids l)) le (portal_cart_items who s)
    ∙ joined-sum ids s (select (is_own_line who s.carts) s.cart_items)
    ∙ ap (sum_of (λ i. shown_total ids (joined s i))) (
        select-same (is_own_line who s.carts) (λ (i : CartItem). i.cart == c.pk) s.cart_items
          (λ i. own_line-in_cart who c s.carts i v.carts mine))

-- Where the page of a cart shows no warning, checkout accepts every line of the cart, and its
-- subtotal is the total that the page shows. The tables of the cart are in order, products have keys
-- of their own, and each line has its product and store.
pub preview-eq-checkout :
    (today : ℕ) (le : PortalLine → PortalLine → Bool) (who : ℕ) (s : Shop) (c : Cart)
    → IsTidy s
    → Apart same_product s.inventory.products
    → All (IsLinked s) s.cart_items
    → cart_of who s ≡ some c
    → (build_cart_view_context today le who s).has_warnings ≡ false
    → (ls : List Line) × (build_validated_lines today s (sort_by by_product (in_cart c s)) ≡ ok ls)
      × (lines_subtotal ls ≡ (build_cart_view_context today le who s).preview_subtotal)
unfolding build_cart_view_context
preview-eq-checkout today le who s c v apart linked mine calm =
    let ids = publicly_available_product_ids today s (listed_ids le who s) in
    let rows = presentations today le who s in
    let key = λ (r : Presentation). r.line.store.pk in
    let quiet = subst (λ o. (view_of today le who s o).has_warnings ≡ false) mine calm in
    let unwarned = sym (
      sort-any (λ i. warned ids (joined s i)) by_product (in_cart c s)
      ∙ sym (shown-warned today le who s c v mine)
      ∙ sym (group-any is_warned key rows)) in
    let sound = sort-All (IsSound s) by_product (in_cart c s) (
      All-select (IsSound s) (λ (i : CartItem). i.cart == c.pk) s.cart_items
        (all-IsSound s s.cart_items v.amounts linked)) in
    let (ls, passes, total) =
      unwarned-lines today (listed_ids le who s) s (sort_by by_product (in_cart c s)) apart sound
        (sym unwarned ∙ quiet) in
    (
      ls,
      passes,
      total
          ∙ sort-sum_of (λ i. shown_total ids (joined s i)) by_product (in_cart c s)
          ∙ sym (shown-total today le who s c v mine)
          ∙ sym (group-sum_of total_of key rows)
          ∙ sym (ap (λ o. (view_of today le who s o).preview_subtotal) mine),
    )
