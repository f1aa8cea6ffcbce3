-- ===== src/Catalog.antt =====
-- catalog/models.py: the columns of a product row that stock, cart and checkout read.
pub mod Public
use zuvi_web.Prelude.{ℕ, Bool, Option}
use zuvi_web.Prelude.Text.{Text}

pub data ProductStatus : Type 0 where
  draft pending approved rejected inactive : ProductStatus

-- Stock is counted in thousandths of a unit, prices in cents; a date is its ordinal.
pub record Product : Type 0 where
  pub pk : ℕ
  pub store : ℕ
  pub name : Text
  pub product_code : Text
  pub sku : Text
  pub unit : Text
  pub unit_value : Option ℕ
  pub status : ProductStatus
  pub is_active : Bool
  pub category_is_active : Option Bool
  pub expiry_date : Option ℕ
  pub final_price : Option ℕ
  pub stock_quantity : ℕ
