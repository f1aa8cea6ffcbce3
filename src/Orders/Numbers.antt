-- ===== src/Orders/Numbers.antt =====
-- orders/services.py and orders/models.py: the numbers of orders and store orders. A number is drawn
-- until no row has it, and the insertion is tried again when another session has taken it meanwhile.
pub mod Fresh
use zuvi_web.Prelude.{
  ℕ, zero, suc, ◌+◌, Bool, true, false, Option, none, some, ◌++◌, if◌then◌else◌, List, [], any,
}
use zuvi_web.Prelude.Text.{Text, text, text_eq}
use zuvi_web.Prelude.Effect.{Action, pure, get, modify, or_raise, ok, runtime, ◌>>=◌, ◌>>◌}
use zuvi_web.Shop.{Shop, PlacedOrder, PlacedStoreOrder}

abbrev pub order_number_max_attempts : ℕ
order_number_max_attempts = 32

-- `date` is the local date as `%Y%m%d`, `token` the eight random characters.
abbrev pub candidate_number : (prefix date token : Text) → Text
candidate_number prefix date token = prefix ++ (text "-" ++ (date ++ (text "-" ++ token)))

-- `tries` rounds are left, and `i` are over: `draw i` is the candidate of round `i`. Without a free
-- candidate the code raises a `RuntimeError`.
unfoldable pub generate_number : (Text → Bool) → (ℕ → Text) → (tries i : ℕ) → Option Text
generate_number taken draw zero i = none
generate_number taken draw (suc n) i =
    let rest = generate_number taken draw n (i + 1) in
    if taken (draw i) then rest else some (draw i)

unfoldable pub order_number_taken : List PlacedOrder → Text → Bool
order_number_taken rows number = any (λ (o : PlacedOrder). text_eq o.order.order_number number) rows

unfoldable pub store_order_number_taken : List PlacedStoreOrder → Text → Bool
store_order_number_taken rows number =
    any (λ (o : PlacedStoreOrder). text_eq o.row.store_order_number number) rows

-- The tokens that `secrets` draws, by attempt and round, and the date in the numbers.
pub record Draws : Type 0 where
  pub date : Text
  pub token : ℕ → ℕ → Text

unfoldable pub generate_order_number : Draws → (attempt : ℕ) → List PlacedOrder → Option Text
unfolding generate_number
generate_order_number d k rows =
    generate_number (order_number_taken rows)
      (λ i. candidate_number (text "ORD") d.date (d.token k i)) order_number_max_attempts 0

unfoldable pub generate_store_order_number :
    Draws → (attempt : ℕ) → List PlacedStoreOrder → Option Text
unfolding generate_number
generate_store_order_number d k rows =
    generate_number (store_order_number_taken rows)
      (λ i. candidate_number (text "SO") d.date (d.token k i)) order_number_max_attempts 0

-- `save` of a row with no number, which is the same method of the two models: `generate k` draws the
-- number at attempt `k`, `others k` is what other sessions commit before the row is written,
-- `violates` tests the unique constraints, and `insert` writes the row. The result is `none` where the
-- code raises the `IntegrityError` of the last attempt.
module _ {A : Type 0} (generate : ℕ → Shop → Option Text) (others : ℕ → Shop → Shop)
    (violates : Text → Shop → Bool) (insert : Text → Shop → A × Shop) where
  abbrev pub inserted : A × Shop → Option A × Shop
  inserted (a, s) = (some a, s)

  abbrev pub written : Bool → Text → Shop → Option A × Shop
  written true number s = (none, s)
  written false number s = inserted (insert number s)

  unfoldable pub save_once : ℕ → Action Shop (Option A)
  save_once k = do
    s ← get
    number ← or_raise runtime (generate k s)
    modify (others k)
    λ t. ok (written (violates number t) number t)

  abbrev pub unless_saved : Option A → Action Shop (Option A) → Action Shop (Option A)
  unless_saved (some a) again = pure (some a)
  unless_saved none again = again

  unfoldable pub save_numbered : (attempts k : ℕ) → Action Shop (Option A)
  save_numbered zero k = pure none
  save_numbered (suc n) k = do r ← save_once k; unless_saved r (save_numbered n (k + 1))
