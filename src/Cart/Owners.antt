-- ===== src/Cart/Owners.antt =====
-- cart/services.py: a call of a customer leaves the lines of another customer's cart as they were.
use zuvi_web.Prelude.{
  ℕ, ◌<◌, ◌≡◌, ◌≢◌, refl, sym, subst, ◌∙◌, Bool, true, Option, none, some, List, [], ◌∷◌, find,
  select, ◌==◌, All, All-append, arith,
}
use zuvi_web.Prelude.Keeps.{Keeps, returned}
use zuvi_web.Prelude.Apart.{All-find, All-map, find-holds}
use zuvi_web.Shop.{Shop, Cart, CartItem}
use zuvi_web.Cart.{cart_of, new_cart, or_new_cart, get_or_create_cart_for_customer, touched}
use zuvi_web.Cart.Services.{is_line, new_line, Meanwhile, own_line, is_own_line}
use zuvi_web.Cart.Invariant.{IsTidy}
use zuvi_web.Cart.Kept.{CartRules}
use zuvi_web.Cart.Calls.{CartStep, CartStep-keeps, IsTidy-rules, new_cart-IsTidy}
use zuvi_web.Cart.Elsewhere.{
  of_cart, IsOf, IsAlone, alone-IsQuiet, Untouched, NotCart, Elsewhere, owner_unique, elsewhere,
  rewrite-Elsewhere, delete-Elsewhere, deletes-Elsewhere, insert-Elsewhere,
}

own_line-away :
    (who other d : ℕ) (i : CartItem) (rows : List Cart)
    → All (IsOf other d) rows
    → who ≢ other
    → is_own_line who rows i ≡ true
    → i.cart ≢ d
unfolding is_own_line
own_line-away who other d i [] owner differ h = cc
own_line-away who other d i (c ∷ rows) owner differ h =
    ground (arith, owner.0, own_line-away who other d i rows owner.1 differ)

module _ (other d : ℕ) (lines : List CartItem) where
  found-Elsewhere :
      (p : CartItem → Bool) (i : CartItem) (s : Shop)
      → Untouched other d lines s
      → find p s.cart_items ≡ some i
      → i.cart ≢ d
      → Elsewhere d lines i
  found-Elsewhere p i s v h off =
      subst (λ rows. Elsewhere d rows i) v.same (elsewhere d p i s.cart_items v.tidy.lines h off)

  now-Elsewhere :
      (i : CartItem) (s : Shop)
      → Untouched other d lines s
      → Elsewhere d lines i
      → Elsewhere d (select (of_cart d) s.cart_items) i
  now-Elsewhere i s v off = subst (λ rows. Elsewhere d rows i) (sym v.same) off

  made :
      (now who : ℕ) (s : Shop) (found : Option Cart)
      → who ≢ other
      → cart_of who s ≡ found
      → Untouched other d lines s
      → Untouched other d lines ((or_new_cart now who found s).1)
        × NotCart d ((or_new_cart now who found s).0)
  made now who s (some c) differ h v = (
    v,
    (λ same.
        let theirs = All-find (IsOf other d) _ s.carts v.owner h same in
        let mine = find-holds (λ (c : Cart). c.customer == who) s.carts h in ground arith),
  )
  made now who s none differ h v = (
    record {
      tidy = new_cart-IsTidy now who s none h v.tidy;
      owner =
          All-append (IsOf other d) s.carts (new_cart now who s ∷ []) v.owner
            ((λ same. ground (arith, v.known)), tt);
      known = ground (arith, v.known);
      same = v.same;
    },
    (λ same. ground (arith, v.known)),
  )

  made-Keeps :
      (now who : ℕ)
      → who ≢ other
      → Keeps (Untouched other d lines) (get_or_create_cart_for_customer now who) (NotCart d)
  unfolding get_or_create_cart_for_customer
  made-Keeps now who differ s r v run =
      let (kept, off) = made now who s (cart_of who s) differ refl v in
      let (given, same) = returned _ _ run in
      (subst (Untouched other d lines) same kept, subst (NotCart d) given off)

  other_rules :
      (w : Meanwhile) (who : ℕ)
      → IsAlone w
      → who ≢ other
      → CartRules who w (Untouched other d lines) (NotCart d) (Elsewhere d lines)
  unfolding own_line
  other_rules w who alone differ =
      let tidy = IsTidy-rules w who (alone-IsQuiet w alone) in
      record {
        cart_made = made-Keeps w.now who differ;
        line_found = λ c p s i mine v found.
            let here = find-holds (is_line c.pk p.pk) s.cart_items found in
            found-Elsewhere _ i s v found (λ at. mine (ground arith));
        line_owned = λ pk s i v found.
            let here = find-holds _ s.cart_items found in
            found-Elsewhere _ i s v found
              (own_line-away who other d i s.carts v.owner differ (ground arith));
        line_written = λ p n i s off b v. record {
          tidy = tidy.line_written p n i s tt b v.tidy;
          owner = v.owner;
          known = v.known;
          same = rewrite-Elsewhere p n d i s.cart_items (now-Elsewhere i s v off) ∙ v.same;
        };
        line_inserted = λ c p n s off free b v. record {
          tidy = tidy.line_inserted c p n s tt free b v.tidy;
          owner = v.owner;
          known = v.known;
          same = insert-Elsewhere d (new_line c p n s) s.cart_items off ∙ v.same;
        };
        line_deleted = λ i s off v. record {
          tidy = tidy.line_deleted i s tt v.tidy;
          owner = v.owner;
          known = v.known;
          same = delete-Elsewhere d i s.cart_items (now-Elsewhere i s v off) ∙ v.same;
        };
        lines_deleted = λ c s off v. record {
          tidy = tidy.lines_deleted c s tt v.tidy;
          owner = v.owner;
          known = v.known;
          same = deletes-Elsewhere d c.pk s.cart_items off ∙ v.same;
        };
        cart_touched = λ pk s v. record {
          tidy = tidy.cart_touched pk s v.tidy;
          owner =
              All-map (IsOf other d) (IsOf other d) (touched w.now pk) s.carts
                (λ c mine same. ground (arith, mine)) v.owner;
          known = v.known;
          same = v.same;
        };
        cleaning = λ s v. subst (Untouched other d lines) (sym (alone.cleaning s)) v;
        saving = λ s v. subst (Untouched other d lines) (sym (alone.saving s)) v;
      }

-- A call of a cart service by one customer leaves the lines of another customer's cart as they were,
-- where the tables are in order and no other session is between.
pub CartStep-others :
    (w : Meanwhile) (who other : ℕ) (e : Cart) (s t : Shop)
    → IsTidy s
    → IsAlone w
    → cart_of other s ≡ some e
    → who ≢ other
    → CartStep w who s t
    → select (of_cart e.pk) t.cart_items ≡ select (of_cart e.pk) s.cart_items
CartStep-others w who other e s t v alone theirs differ step =
    let lines = select (of_cart e.pk) s.cart_items in
    (CartStep-keeps w who (Untouched other e.pk lines) (NotCart e.pk) (Elsewhere e.pk lines)
      (other_rules other e.pk lines w who alone differ)
      (record {
        tidy = v;
        owner = owner_unique other e s.carts v.carts theirs;
        known = All-find (λ (c : Cart). c.pk < s.next_cart) _ s.carts v.cart_keys theirs;
        same = refl;
      })
      step).same
