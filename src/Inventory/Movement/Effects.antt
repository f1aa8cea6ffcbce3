-- ===== src/Inventory/Movement/Effects.antt =====
-- What a call of `apply_stock_movement` that returns has done to the tables.
use zuvi_web.Prelude.{
  ℕ, ◌<◌, ◌≤◌, length, ◌≡◌, refl, ap, subst, false, not, ◌&&◌, Option, some, [], ◌∷◌, ◌++◌, leb,
  ◌==◌, if◌then◌else◌, arith,
}
use zuvi_web.Prelude.Int.{ℤ, pos, negsuc, ◌+ℤ◌}
use zuvi_web.Prelude.Effect.{
  Result, ok, validation, product, purchase_entry, does_not_exist, data_error, ran, lift-eq-ok,
  check-eq-ok, or_raise-eq-ok, raise_if-eq-ok, running,
}
use zuvi_web.Catalog.{Product}
use zuvi_web.Inventory.Model.{
  transaction_type_direction, is_opening, InventoryTransaction, Inventory,
  validate_manufacturing_and_expiry_dates, product_row, set_stock,
}
use zuvi_web.Inventory.Movement.{
  Movement, validate_positive_quantity, require_reason, validate_unit_cost, signed_delta,
  opening_already_recorded, reference_taken, max_units, full_clean, create_transaction_row,
  entry_elsewhere, movement_row, record_balance, move_stock, apply_stock_movement,
}

-- The last step of the call, once every check before it has passed.
abbrev pub finish :
    Movement → Option ℕ → (n previous : ℕ) → Inventory → Result (InventoryTransaction × Inventory)
finish m cost n previous s =
    (if m.skip_product_update
        then record_balance m cost n previous
        else move_stock m cost n previous
            (pos previous +ℤ signed_delta (transaction_type_direction m.transaction_type) n))
      s

pub record Accepted (m : Movement) (s : Inventory) (r : InventoryTransaction × Inventory)
    : Type 0 where
  pub units : ℕ
  pub cost : Option ℕ
  pub locked : Product
  pub quantified : validate_positive_quantity m.quantity ≡ ok units
  pub reasoned : require_reason m.transaction_type m.reason ≡ ok tt
  pub found : product_row m.product s.products ≡ some locked
  pub owned : not (locked.store == m.store) ≡ false
  pub first_opening :
      is_opening m.transaction_type && opening_already_recorded m.product s.transactions ≡ false
  pub finished : finish m cost units locked.stock_quantity s ≡ ok r

pub apply-Accepted :
    (today : ℕ) (m : Movement) (s : Inventory) {r : InventoryTransaction × Inventory}
    → apply_stock_movement today m s ≡ ok r
    → Accepted m s r
unfolding apply_stock_movement
apply-Accepted today m s h =
    let (n, hn, h₁) = lift-eq-ok (validate_positive_quantity m.quantity) _ s h in
    let (reasoned, h₂) = check-eq-ok (require_reason m.transaction_type m.reason) _ s h₁ in
    let (_, _, h₃) =
      lift-eq-ok (validate_manufacturing_and_expiry_dates today m.manufacturing_date m.expiry_date)
        _ s h₂ in
    let (cost, _, h₄) = lift-eq-ok (validate_unit_cost m.unit_cost) _ s h₃ in
    let h₅ = ran s s _ h₄ in
    let (locked, hl, h₆) =
      or_raise-eq-ok does_not_exist (product_row m.product s.products) _ s h₅ in
    let (owned, h₇) = raise_if-eq-ok (not (locked.store == m.store)) (validation product) _ s h₆ in
    let (_, h₈) =
      raise_if-eq-ok (entry_elsewhere m.purchase_entry m.store) (validation purchase_entry) _ s
        h₇ in
    let (first, h₉) =
      raise_if-eq-ok
        (is_opening m.transaction_type && opening_already_recorded m.product s.transactions)
        (validation product) _ s h₈ in
    record {
      units = n;
      cost = cost;
      locked = locked;
      quantified = hn;
      reasoned = reasoned;
      found = hl;
      owned = owned;
      first_opening = first;
      finished = h₉;
    }

-- The store of the movement owns the product.
pub apply-owned :
    (today : ℕ) (m : Movement) (s : Inventory) (p : Product) {r : InventoryTransaction × Inventory}
    → product_row m.product s.products ≡ some p
    → apply_stock_movement today m s ≡ ok r
    → p.store ≡ m.store
apply-owned today m s p found h =
    let a = apply-Accepted today m s h in
    let same : a.locked ≡ p = cc a.found in
    let owned : a.locked.store ≡ m.store = ground (arith, a.owned) in
    subst (λ (q : Product). q.store ≡ m.store) same owned

-- A row that `create_transaction_row` adds, and nothing else.
pub create-eq-ok :
    (t : InventoryTransaction) (s : Inventory) {r : InventoryTransaction × Inventory}
    → create_transaction_row t s ≡ ok r
    → (r ≡ (t, record s { transactions = s.transactions ++ t ∷ [] }))
      × (reference_taken t.reference s.transactions ≡ false)
unfolding create_transaction_row full_clean running
create-eq-ok t s h = ground arith

create-short :
    (t : InventoryTransaction) (s : Inventory) {r : InventoryTransaction × Inventory}
    → create_transaction_row t s ≡ ok r
    → length t.reference ≤ 100
unfolding create_transaction_row full_clean running
create-short t s h = ground arith

-- A movement that is not only put on record.
pub record Moved (m : Movement) (s : Inventory) (n : ℕ) (previous : ℕ)
    (r : InventoryTransaction × Inventory) : Type 0 where
  pub cost : Option ℕ
  pub new : ℕ
  pub balance :
      pos new ≡ pos previous +ℤ signed_delta (transaction_type_direction m.transaction_type) n
  pub row : r.0 ≡ movement_row m cost n previous new
  pub products : r.1.products ≡ set_stock m.product new s.products
  pub transactions : r.1.transactions ≡ s.transactions ++ r.0 ∷ []
  pub fits : new < max_units
  pub short : length m.reference ≤ 100
  pub fresh : reference_taken r.0.reference s.transactions ≡ false

move_stock-Moved :
    (m : Movement) (cost : Option ℕ) (n previous : ℕ) (x : ℤ) (s : Inventory)
    {r : InventoryTransaction × Inventory}
    → x ≡ pos previous +ℤ signed_delta (transaction_type_direction m.transaction_type) n
    → move_stock m cost n previous x s ≡ ok r
    → Moved m s n previous r
unfolding move_stock movement_row
move_stock-Moved m cost n previous (negsuc k) s e h = cc
move_stock-Moved m cost n previous (pos new) s {r} e h =
    let (small, h₁) = raise_if-eq-ok (leb max_units new) data_error _ s h in
    let h₂ = ran tt (record s { products = set_stock m.product new s.products }) _ h₁ in
    let (made, fresh) = create-eq-ok (movement_row m cost n previous new) _ h₂ in
    record {
      cost = cost;
      new = new;
      balance = e;
      row = cc;
      products = ap (λ (q : InventoryTransaction × Inventory). q.1.products) made;
      transactions = ground arith;
      fits = ground arith;
      short = create-short (movement_row m cost n previous new) _ h₂;
      fresh = ground (arith, fresh);
    }

-- A call without `skip_product_update` that returns.
pub apply-Moved :
    (today : ℕ) (m : Movement) (s : Inventory) {r : InventoryTransaction × Inventory}
    → m.skip_product_update ≡ false
    → apply_stock_movement today m s ≡ ok r
    → (n : ℕ) × (p : Product) × (validate_positive_quantity m.quantity ≡ ok n)
      × (product_row m.product s.products ≡ some p)
      × Moved m s n p.stock_quantity r
apply-Moved today m s {r} moves h =
    let a = apply-Accepted today m s h in
    let e : move_stock m a.cost a.units a.locked.stock_quantity
          (pos a.locked.stock_quantity
            +ℤ signed_delta (transaction_type_direction m.transaction_type) a.units)
          s
        ≡ ok r =
      ground (arith, a.finished) in
    (
      a.units,
      a.locked,
      a.quantified,
      a.found,
      move_stock-Moved m a.cost a.units a.locked.stock_quantity _ s refl e,
    )
