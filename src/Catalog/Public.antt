-- ===== src/Catalog/Public.antt =====
-- catalog/public.py: which products the public shop shows and sells.
use zuvi_web.Prelude.{ℕ, Bool, false, not, ◌&&◌, Option, List, ltb, get_or}
use zuvi_web.Catalog.{Product}
use zuvi_web.Stores.{Store}
use zuvi_web.Shop.{store_row}
use zuvi_web.Orders.Validation.{is_approved, store_sells, is_product_expired, has_price}

-- `public_products_q` on one row: a missing value passes no comparison.
unfoldable pub is_public : (today : ℕ) → Product → Option Store → Bool
is_public today p store =
    is_approved p.status
    && p.is_active
    && has_price p.final_price
    && store_sells store
    && get_or false p.category_is_active
    && ltb 0 p.stock_quantity
    && not (is_product_expired today p)

abbrev pub is_public_row : (today : ℕ) → List Store → Product → Bool
is_public_row today stores p = is_public today p (store_row p.store stores)
