-- ===== src/Orders/Validation.antt =====
-- orders/checkout.py: the lines of a cart are locked and checked against their products and stores.
use zuvi_web.Prelude.{
  ℕ, ◌*◌, Bool, true, false, not, ◌&&◌, ◌||◌, Option, none, some, List, [], ◌∷◌, any, select, ltb,
  leb, ◌==◌, get_or,
}
use zuvi_web.Prelude.Sort.{sort_by}
use zuvi_web.Prelude.Text.{Text}
use zuvi_web.Prelude.Effect.{
  Result, ok, err, bind, raise_when, Action, pure, get, modify, ◌>>=◌, ◌>>◌, validation, cart,
}
use zuvi_web.Decimal.{round_half_even}
use zuvi_web.Catalog.{Product, ProductStatus}
use zuvi_web.Stores.{Store, StoreStatus}
use zuvi_web.Inventory.Model.{product_row}
use zuvi_web.Orders.Model.{Call}
use zuvi_web.Orders.Numbers.{Draws}
use zuvi_web.Shop.{Shop, Cart, CartItem, FulfillmentType, PaymentMethod, store_row}
use zuvi_web.Cart.{get_or_create_cart_for_customer}

-- A key as a form posts it: absent or blank, not an integer, or an integer.
pub data FormKey : Type 0 where
  blank unreadable : FormKey
  key : ℕ → FormKey

-- What the caller passes. The two choices are `none` where the posted value is not among the choices.
pub record Submission : Type 0 where
  pub customer : ℕ
  pub checkout_token : Text
  pub fulfillment_type : Option FulfillmentType
  pub payment_method : Option PaymentMethod
  pub delivery_address_id : FormKey
  pub pickup_location_of : ℕ → FormKey
  pub pickup_location_id : FormKey
  pub customer_notes : Text

-- What the call meets: the caller and the clock, the random numbers, and what other sessions commit
-- before the cart is locked, and before a numbered row is written at each attempt.
pub record World : Type 0 where
  pub call : Call
  pub draws : Draws
  pub store_draws : ℕ → Draws
  pub before_lock : Shop → Shop
  pub before_order : ℕ → Shop → Shop
  pub before_store_order : ℕ → Shop → Shop

abbrev pub is_approved : ProductStatus → Bool
is_approved ProductStatus.approved = true
is_approved _ = false

abbrev pub is_active_status : StoreStatus → Bool
is_active_status StoreStatus.active = true
is_active_status _ = false

abbrev pub store_sells : Option Store → Bool
store_sells none = false
store_sells (some s) = is_active_status s.status && s.is_active

abbrev pub is_product_expired : (today : ℕ) → Product → Bool
is_product_expired today p = elim p.expiry_date [ none ↦ false | some d ↦ ltb d today ]

abbrev pub has_price : Option ℕ → Bool
has_price none = false
has_price (some n) = ltb 0 n

unfoldable pub validate_sellable_product :
    (today : ℕ) → Product → Option Store → ℕ → Result (Unit {0})
validate_sellable_product today p store q =
    raise_when (not (is_approved p.status)) (validation cart) (
      raise_when (not p.is_active) (validation cart) (
        raise_when (not (store_sells store)) (validation cart) (
          raise_when (not (get_or false p.category_is_active)) (validation cart) (
            raise_when (is_product_expired today p) (validation cart) (
              raise_when (not (has_price p.final_price)) (validation cart) (
                raise_when (leb q 0) (validation cart)
                  (raise_when (ltb p.stock_quantity q) (validation cart) (ok tt))))))))

-- A cart line against its locked product.
pub record Line : Type 0 where
  pub cart_item : CartItem
  pub product : Product
  pub store : Store
  pub quantity : ℕ
  pub unit_price : ℕ
  pub line_total : ℕ

-- `(unit_price * quantity).quantize(Decimal("0.01"))`, for cents and thousandths.
unfoldable pub line_amount : (unit_price quantity : ℕ) → ℕ
unfolding round_half_even
line_amount unit_price q = round_half_even (unit_price * q) 1000

abbrev pub by_product : CartItem → CartItem → Bool
by_product a b = ltb a.product b.product || (a.product == b.product && leb a.pk b.pk)

unfoldable pub lock_cart_items : World → (customer : ℕ) → Action Shop (Cart × List CartItem)
unfolding sort_by
lock_cart_items w customer = do
  modify w.before_lock
  c ← get_or_create_cart_for_customer w.call.now customer
  s ← get
  pure (c, sort_by by_product (select (λ (i : CartItem). i.cart == c.pk) s.cart_items))

abbrev pub missing_product : List Product → CartItem → Bool
missing_product ps i = elim (product_row i.product ps) [ none ↦ true | some _ ↦ false ]

unfoldable pub lock_products_for_items : List Product → List CartItem → Result (Unit {0})
lock_products_for_items ps items =
    raise_when (any (missing_product ps) items) (validation cart) (ok tt)

abbrev pub valid_line : CartItem → Product → Store → ℕ → Line
valid_line i p store price = record {
  cart_item = i;
  product = p;
  store = store;
  quantity = i.quantity;
  unit_price = price;
  line_total = line_amount price i.quantity;
}

-- The last two cases are refused by the check before.
unfoldable pub line_of : CartItem → Product → Option Store → Option ℕ → Result Line
line_of i p (some store) (some price) = ok (valid_line i p store price)
line_of i p (some store) none = err (validation cart)
line_of i p none price = err (validation cart)

unfoldable pub build_validated_line : (today : ℕ) → Shop → CartItem → Option Product → Result Line
build_validated_line today s i none = err (validation cart)
build_validated_line today s i (some p) =
    let store = store_row p.store s.stores in
    bind (validate_sellable_product today p store i.quantity) λ _. line_of i p store p.final_price

unfoldable pub build_validated_lines : (today : ℕ) → Shop → List CartItem → Result (List Line)
build_validated_lines today s [] = ok []
build_validated_lines today s (i ∷ items) =
    bind (build_validated_line today s i (product_row i.product s.inventory.products))
      λ l. bind (build_validated_lines today s items) λ ls. ok (l ∷ ls)
