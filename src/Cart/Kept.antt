-- ===== src/Cart/Kept.antt =====
-- cart/services.py: a call keeps a property of the database when its writes do.
use zuvi_web.Prelude.{
  ℕ, ◌<◌, ◌≡◌, refl, subst, false, Option, none, some, List, any, arith, Bool-cases, inl, inr,
}
use zuvi_web.Prelude.Effect.{
  ok, raise_when-eq-ok, bind-eq-ok, validation, does_not_exist, customer, non_field_errors, modify,
  or_raise,
}
use zuvi_web.Prelude.Keeps.{
  Keeps, Anything, bind-Keeps, then-Keeps, modify-Keeps, lift-Keeps, or_raise-Keeps, get-Keeps,
  pure-Keeps, except-Keeps, returned,
}
use zuvi_web.Catalog.{Product}
use zuvi_web.Inventory.Movement.{max_units}
use zuvi_web.Shop.{Shop, Cart, CartItem}
use zuvi_web.Cart.{get_or_create_cart_for_customer, touch_cart}
use zuvi_web.Cart.Quantity.{
  Quantity, PostedQuantity, parse_positive_quantity, ensure_quantity_within_stock, increased,
  clean_quantity,
}
use zuvi_web.Cart.Services.{
  ProductKey, product_id, lock_public_product, is_line, line_in, new_line_full_clean, new_line,
  insert_line, with_line, write_line, save_quantity, Meanwhile, merge_into_winner, add_line,
  add_product_to_cart, own_line, update_cart_item_quantity, delete_line, remove_cart_item,
  delete_lines, clear_cart,
}
use zuvi_web.Cart.Invariant.{
  IsPositive, parse-IsPositive, increased-IsPositive, clean_quantity-bounds,
}

new_line-bounds :
    (c : Cart) (p : Product) (q : Quantity) (rows : List CartItem) (n : ℕ)
    → IsPositive q
    → new_line_full_clean c p q rows ≡ ok n
    → (0 < n) × (n < max_units)
unfolding new_line_full_clean
new_line-bounds c p q rows n h came =
    let (m, clean, rest) = bind-eq-ok (clean_quantity q) _ came in
    let (_, same) = raise_when-eq-ok _ (validation non_field_errors) (ok m) rest in
    let equal : m ≡ n = cc in
    subst (λ k. (0 < k) × (k < max_units)) equal (clean_quantity-bounds q m h clean)

-- What the writes of a call by the customer `k` must keep, for the carts and the lines that they
-- reach.
pub record CartRules (k : ℕ) (w : Meanwhile) (P : Shop → Type 0) (MyCart : Cart → Type 0)
    (MyLine : CartItem → Type 0) : Type 0 where
  pub cart_made : Keeps P (get_or_create_cart_for_customer w.now k) MyCart
  pub line_found :
      (c : Cart) (p : Product) (s : Shop) (i : CartItem)
      → MyCart c
      → P s
      → line_in c.pk p.pk s.cart_items ≡ some i
      → MyLine i
  pub line_owned : (pk : ℕ) (s : Shop) (i : CartItem) → P s → own_line k pk s ≡ some i → MyLine i
  pub line_written :
      (p : Product) (n : ℕ) (i : CartItem) (s : Shop)
      → MyLine i
      → (0 < n) × (n < max_units)
      → P s
      → P (write_line p n i.pk s)
  pub line_inserted :
      (c : Cart) (p : Product) (n : ℕ) (s : Shop)
      → MyCart c
      → any (is_line c.pk p.pk) s.cart_items ≡ false
      → (0 < n) × (n < max_units)
      → P s
      → P (with_line c p n s)
  pub line_deleted : (i : CartItem) (s : Shop) → MyLine i → P s → P (delete_line i.pk s)
  pub lines_deleted : (c : Cart) (s : Shop) → MyCart c → P s → P (delete_lines c.pk s)
  pub cart_touched : (pk : ℕ) (s : Shop) → P s → P (touch_cart w.now pk s)
  pub cleaning : (s : Shop) → P s → P (w.before_clean s)
  pub saving : (s : Shop) → P s → P (w.before_save s)

module _ (w : Meanwhile) (P : Shop → Type 0) (MyCart : Cart → Type 0)
    (MyLine : CartItem → Type 0) where
  lock-Keeps :
      (today : ℕ) (sought : ProductKey) → Keeps P (lock_public_product today sought) Anything
  unfolding lock_public_product
  lock-Keeps today sought =
      bind-Keeps P P Anything _ _ (get-Keeps P) (λ s _. lift-Keeps P Anything _ (λ _ _. tt))

  module _ (k : ℕ) (rules : CartRules k w P MyCart MyLine) where
    save_quantity-Keeps :
        (p : Product) (q : Quantity) (i : CartItem)
        → MyLine i
        → IsPositive q
        → Keeps P (save_quantity p q i) Anything
    unfolding save_quantity
    save_quantity-Keeps p q i mine h =
        bind-Keeps P Anything Anything _ _
          (lift-Keeps P Anything (ensure_quantity_within_stock p q) (λ _ _. tt))
          (λ _ _.
            bind-Keeps P (λ n. (0 < n) × (n < max_units)) Anything _ _
              (lift-Keeps P _ (clean_quantity q) (λ n came. clean_quantity-bounds q n h came))
              (λ n b.
                then-Keeps P Anything Anything _ _
                  (modify-Keeps P _ (λ s v. rules.line_written p n i s mine b v))
                  (pure-Keeps P Anything _ tt)))

    insert_line-Keeps :
        (c : Cart) (p : Product) (n : ℕ)
        → MyCart c
        → (0 < n) × (n < max_units)
        → Keeps P (insert_line c p n) Anything
    unfolding insert_line
    insert_line-Keeps c p n mine b s r v run =
        elim (Bool-cases (any (is_line c.pk p.pk) s.cart_items)) [
          | inl there ↦ ground arith
          | inr free ↦
              let came : ok (new_line c p n s, with_line c p n s) ≡ ok r = ground arith in
              let (_, same) = returned (new_line c p n s) (with_line c p n s) came in
              (subst P same (rules.line_inserted c p n s mine free b v), tt)
        ]

    merge-Keeps :
        (c : Cart) (p : Product) (q : Quantity)
        → MyCart c
        → IsPositive q
        → Keeps P (merge_into_winner c p q) Anything
    unfolding merge_into_winner
    merge-Keeps c p q mine h = bind-Keeps P P Anything _ _ (get-Keeps P) (λ s v.
        bind-Keeps P MyLine Anything _ _
          (or_raise-Keeps P MyLine does_not_exist (line_in c.pk p.pk s.cart_items)
            (λ i found. rules.line_found c p s i mine v found))
          (λ i own.
            save_quantity-Keeps p (increased i.quantity q) i own
              (increased-IsPositive i.quantity q h)))

    add_line-Keeps :
        (c : Cart) (p : Product) (q : Quantity) (s : Shop)
        → MyCart c
        → P s
        → IsPositive q
        → (found : Option CartItem) → line_in c.pk p.pk s.cart_items ≡ found
        → Keeps P (add_line w c p q found) Anything
    unfolding add_line
    add_line-Keeps c p q s mine v h (some i) found =
        save_quantity-Keeps p (increased i.quantity q) i (rules.line_found c p s i mine v found)
          (increased-IsPositive i.quantity q h)
    add_line-Keeps c p q s mine v h none found =
        bind-Keeps P Anything Anything _ _
          (lift-Keeps P Anything (ensure_quantity_within_stock p q) (λ _ _. tt))
          (λ _ _.
            then-Keeps P Anything Anything _ _ (modify-Keeps P w.before_clean rules.cleaning) (
              bind-Keeps P P Anything _ _ (get-Keeps P) (λ t _.
                bind-Keeps P (λ n. (0 < n) × (n < max_units)) Anything _ _
                  (lift-Keeps P _ (new_line_full_clean c p q t.cart_items)
                    (λ n came. new_line-bounds c p q t.cart_items n h came))
                  (λ n b.
                    then-Keeps P Anything Anything _ _ (modify-Keeps P w.before_save rules.saving) (
                      except-Keeps P Anything _ _ (insert_line-Keeps c p n mine b)
                        (merge-Keeps c p q mine h))))))

    touch-Keeps : (pk : ℕ) → Keeps P (modify (touch_cart w.now pk)) Anything
    touch-Keeps pk = modify-Keeps P _ (rules.cart_touched pk)

  caller_rules :
      (k : ℕ)
      → CartRules k w P MyCart MyLine
      → Keeps P (or_raise (validation customer) (some k)) (λ j. CartRules j w P MyCart MyLine)
  caller_rules k rules =
      or_raise-Keeps P _ (validation customer) (some k)
        (λ j same. let equal : k ≡ j = cc in subst (λ j. CartRules j w P MyCart MyLine) equal rules)

  pub add_product_to_cart-Keeps :
      (k : ℕ)
      → CartRules k w P MyCart MyLine
      → (posted : PostedQuantity) (sought : ProductKey)
      → Keeps P (add_product_to_cart w (some k) posted sought) Anything
  unfolding add_product_to_cart
  add_product_to_cart-Keeps k rules posted sought =
      bind-Keeps P (λ j. CartRules j w P MyCart MyLine) Anything _ _ (caller_rules k rules)
        (λ k rules.
          bind-Keeps P IsPositive Anything _ _
            (lift-Keeps P IsPositive (parse_positive_quantity posted) (parse-IsPositive posted))
            (λ q h. bind-Keeps P Anything Anything _ _ (lock-Keeps w.today sought) (λ p _.
              bind-Keeps P MyCart Anything _ _ rules.cart_made (λ c mine.
                bind-Keeps P P Anything _ _ (get-Keeps P) (λ s v.
                  bind-Keeps P Anything Anything _ _
                    (add_line-Keeps k rules c p q s mine v h _ refl)
                    (λ i _.
                      then-Keeps P Anything Anything _ _ (touch-Keeps k rules c.pk)
                        (pure-Keeps P Anything i tt)))))))

  pub update_cart_item_quantity-Keeps :
      (k : ℕ)
      → CartRules k w P MyCart MyLine
      → (pk : ℕ) (posted : PostedQuantity)
      → Keeps P (update_cart_item_quantity w (some k) pk posted) Anything
  unfolding update_cart_item_quantity
  update_cart_item_quantity-Keeps k rules pk posted =
      bind-Keeps P (λ j. CartRules j w P MyCart MyLine) Anything _ _ (caller_rules k rules)
        (λ k rules.
          bind-Keeps P IsPositive Anything _ _
            (lift-Keeps P IsPositive (parse_positive_quantity posted) (parse-IsPositive posted))
            (λ q h. bind-Keeps P P Anything _ _ (get-Keeps P) (λ s v.
              bind-Keeps P MyLine Anything _ _
                (or_raise-Keeps P MyLine does_not_exist (own_line k pk s)
                  (λ i found. rules.line_owned pk s i v found))
                (λ i mine.
                  bind-Keeps P Anything Anything _ _ (lock-Keeps w.today (product_id i.product))
                    (λ p _.
                      bind-Keeps P Anything Anything _ _ (save_quantity-Keeps k rules p q i mine h)
                        (λ j _.
                          then-Keeps P Anything Anything _ _ (touch-Keeps k rules i.cart)
                            (pure-Keeps P Anything j tt)))))))

  pub remove_cart_item-Keeps :
      (k : ℕ)
      → CartRules k w P MyCart MyLine
      → (pk : ℕ) → Keeps P (remove_cart_item w (some k) pk) Anything
  unfolding remove_cart_item
  remove_cart_item-Keeps k rules pk =
      bind-Keeps P (λ j. CartRules j w P MyCart MyLine) Anything _ _ (caller_rules k rules)
        (λ k rules. bind-Keeps P P Anything _ _ (get-Keeps P) (λ s v.
          bind-Keeps P MyLine Anything _ _
            (or_raise-Keeps P MyLine does_not_exist (own_line k pk s)
              (λ i found. rules.line_owned pk s i v found))
            (λ i mine.
              then-Keeps P Anything Anything _ _
                (modify-Keeps P _ (λ t v. rules.line_deleted i t mine v))
                (touch-Keeps k rules i.cart))))

  pub clear_cart-Keeps :
      (k : ℕ) → CartRules k w P MyCart MyLine → Keeps P (clear_cart w (some k)) Anything
  unfolding clear_cart
  clear_cart-Keeps k rules =
      bind-Keeps P (λ j. CartRules j w P MyCart MyLine) Anything _ _ (caller_rules k rules)
        (λ k rules. bind-Keeps P MyCart Anything _ _ rules.cart_made (λ c mine.
          then-Keeps P Anything Anything _ _
            (modify-Keeps P _ (λ t v. rules.lines_deleted c t mine v)) (touch-Keeps k rules c.pk)))
