-- ===== src/Cart/Calls.antt =====
-- cart/services.py: the calls that keep the tables of the cart in order.
use zuvi_web.Prelude.{
  ℕ, ◌+◌, ◌<◌, ◌≡◌, refl, subst, Bool, false, Option, none, some, List, [], ◌∷◌, any, select, All,
  All-append, arith,
}
use zuvi_web.Prelude.Effect.{ok}
use zuvi_web.Prelude.Keeps.{Keeps, Anything, returned}
use zuvi_web.Prelude.Apart.{Apart-select, Apart-append_new, All-select}
use zuvi_web.Catalog.{Product}
use zuvi_web.Inventory.Movement.{max_units}
use zuvi_web.Shop.{Shop, Cart, CartItem}
use zuvi_web.Cart.{cart_of, new_cart, or_new_cart, get_or_create_cart_for_customer}
use zuvi_web.Cart.Quantity.{PostedQuantity}
use zuvi_web.Cart.Services.{
  ProductKey, is_line, new_line, with_line, Meanwhile, add_product_to_cart,
  update_cart_item_quantity, remove_cart_item, clear_cart,
}
use zuvi_web.Cart.Invariant.{
  same_cart, same_line, IsAmount, IsTidy, touch_cart-IsTidy, next-new_cart, weaken-keys,
  write_line-IsTidy,
}
use zuvi_web.Cart.Kept.{
  CartRules, add_product_to_cart-Keeps, update_cart_item_quantity-Keeps, remove_cart_item-Keeps,
  clear_cart-Keeps,
}

-- What other sessions commit keeps the tables in order as well.
pub record IsQuiet (w : Meanwhile) : Type 0 where
  pub cleaning : (s : Shop) → IsTidy s → IsTidy (w.before_clean s)
  pub saving : (s : Shop) → IsTidy s → IsTidy (w.before_save s)

pub new_cart-IsTidy :
    (now k : ℕ) (s : Shop) (found : Option Cart)
    → cart_of k s ≡ found
    → IsTidy s
    → IsTidy ((or_new_cart now k found s).1)
new_cart-IsTidy now k s (some c) h v = v
new_cart-IsTidy now k s none h v = record {
  carts =
      Apart-append_new same_cart s.carts (new_cart now k s)
        (next-new_cart now k s s.carts v.cart_keys h) v.carts;
  cart_keys =
      All-append (λ (c : Cart). c.pk < s.next_cart + 1) s.carts (new_cart now k s ∷ [])
        (weaken-keys (λ (c : Cart). c.pk) s.next_cart s.carts v.cart_keys) (omega arith, tt);
  lines = v.lines;
  line_keys = v.line_keys;
  amounts = v.amounts;
}

get_or_create-Keeps : (now k : ℕ) → Keeps IsTidy (get_or_create_cart_for_customer now k) Anything
unfolding get_or_create_cart_for_customer
get_or_create-Keeps now k s r v run =
    let (c, t) = or_new_cart now k (cart_of k s) s in
    let (_, same) = returned _ _ run in
    (subst IsTidy same (new_cart-IsTidy now k s (cart_of k s) refl v), tt)

next-new_line :
    (c : Cart) (p : Product) (n : ℕ) (s : Shop) (rows : List CartItem)
    → All (λ (i : CartItem). i.pk < s.next_cart_item) rows
    → any (is_line c.pk p.pk) rows ≡ false
    → any (λ (i : CartItem). same_line i (new_line c p n s)) rows ≡ false
next-new_line c p n s [] h g = refl
next-new_line c p n s (i ∷ rows) h g = ground (arith, h.0, next-new_line c p n s rows h.1)

insert_line-IsTidy :
    (c : Cart) (p : Product) (n : ℕ) (s : Shop)
    → any (is_line c.pk p.pk) s.cart_items ≡ false
    → (0 < n) × (n < max_units)
    → IsTidy s
    → IsTidy (with_line c p n s)
insert_line-IsTidy c p n s h b v = record {
  carts = v.carts;
  cart_keys = v.cart_keys;
  lines =
      Apart-append_new same_line s.cart_items (new_line c p n s)
        (next-new_line c p n s s.cart_items v.line_keys h) v.lines;
  line_keys =
      All-append (λ (i : CartItem). i.pk < s.next_cart_item + 1) s.cart_items
        (new_line c p n s ∷ [])
        (weaken-keys (λ (i : CartItem). i.pk) s.next_cart_item s.cart_items v.line_keys)
        (omega arith, tt);
  amounts = All-append IsAmount s.cart_items (new_line c p n s ∷ []) v.amounts (b, tt);
}

deletion-IsTidy :
    (keep : CartItem → Bool) (s : Shop)
    → IsTidy s
    → IsTidy (record s { cart_items = select keep s.cart_items })
deletion-IsTidy keep s v = record {
  carts = v.carts;
  cart_keys = v.cart_keys;
  lines = Apart-select same_line keep s.cart_items v.lines;
  line_keys = All-select (λ (i : CartItem). i.pk < s.next_cart_item) keep s.cart_items v.line_keys;
  amounts = All-select IsAmount keep s.cart_items v.amounts;
}

pub IsTidy-rules : (w : Meanwhile) (who : ℕ) → IsQuiet w → CartRules who w IsTidy Anything Anything
IsTidy-rules w who quiet = record {
  cart_made = get_or_create-Keeps w.now who;
  line_found = λ _ _ _ _ _ _ _. tt;
  line_owned = λ _ _ _ _ _. tt;
  line_written = λ p n i s _ b v. write_line-IsTidy p n i.pk s b v;
  line_inserted = λ c p n s _ free b v. insert_line-IsTidy c p n s free b v;
  line_deleted = λ i s _ v. deletion-IsTidy _ s v;
  lines_deleted = λ c s _ v. deletion-IsTidy _ s v;
  cart_touched = λ pk s v. touch_cart-IsTidy w.now pk s v;
  cleaning = quiet.cleaning;
  saving = quiet.saving;
}

-- One call by the customer `who` that returned.
pub data CartStep (w : Meanwhile) (who : ℕ) (s t : Shop) : Type 0 where
  adds :
      (posted : PostedQuantity) (sought : ProductKey) (i : CartItem)
      → add_product_to_cart w (some who) posted sought s ≡ ok (i, t)
      → CartStep w who s t
  updates :
      (pk : ℕ) (posted : PostedQuantity) (i : CartItem)
      → update_cart_item_quantity w (some who) pk posted s ≡ ok (i, t)
      → CartStep w who s t
  removes : (pk : ℕ) → remove_cart_item w (some who) pk s ≡ ok (tt, t) → CartStep w who s t
  clears : clear_cart w (some who) s ≡ ok (tt, t) → CartStep w who s t

pub data CartSteps (s : Shop) : Shop → Type 0 where
  done : CartSteps s s
  further :
      {t u : Shop} (w : Meanwhile) (who : ℕ)
      → CartSteps s t
      → IsQuiet w
      → CartStep w who t u
      → CartSteps s u

-- A property that the writes of a call keep holds after the call.
pub CartStep-keeps :
    (w : Meanwhile) (who : ℕ) (P : Shop → Type 0) (MyCart : Cart → Type 0)
    (MyLine : CartItem → Type 0) {s t : Shop}
    → CartRules who w P MyCart MyLine
    → P s
    → CartStep w who s t
    → P t
CartStep-keeps w who P C L {s} rules v (adds posted sought i run) =
    (add_product_to_cart-Keeps w P C L who rules posted sought s _ v run).0
CartStep-keeps w who P C L {s} rules v (updates pk posted i run) =
    (update_cart_item_quantity-Keeps w P C L who rules pk posted s _ v run).0
CartStep-keeps w who P C L {s} rules v (removes pk run) =
    (remove_cart_item-Keeps w P C L who rules pk s _ v run).0
CartStep-keeps w who P C L {s} rules v (clears run) =
    (clear_cart-Keeps w P C L who rules s _ v run).0

-- After any calls of the services of carts that return, in any order and by any customers, also while
-- other sessions commit changes that keep the tables in order: a customer has at most one cart, a
-- cart has at most one line for a product, every quantity is above 0 and fits its field, and no key
-- is used twice. The tables were in this order before the calls.
pub CartSteps-IsTidy : (s t : Shop) → IsTidy s → CartSteps s t → IsTidy t
CartSteps-IsTidy s t v done = v
CartSteps-IsTidy s u v (further {t} w who steps quiet step) =
    CartStep-keeps w who IsTidy Anything Anything (IsTidy-rules w who quiet)
      (CartSteps-IsTidy s t v steps) step
