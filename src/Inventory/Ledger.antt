-- ===== src/Inventory/Ledger.antt =====
-- What the ledger of inventory/services.py promises at every moment: each row states its balance
-- correctly, an order reference is used once, and the newest row of a product shows its stock.
use zuvi_web.Prelude.{
  ℕ, ◌<◌, ◌≡◌, refl, sym, ap, ◌∙◌, subst, not, true, false, ◌&&◌, Option, some, List, [], ◌∷◌, ◌++◌,
  ◌==◌, if◌then◌else◌, arith, find_last, All, All-append, inl, inr, Bool-cases, leb, any-append,
}
use zuvi_web.Prelude.Int.{pos, ◌+ℤ◌}
use zuvi_web.Prelude.Text.{Text, text_eq, text_eq→eq}
use zuvi_web.Prelude.Effect.{ok, running, validation, quantity, raise_if-eq-ok}
use zuvi_web.Decimal.{Decimal}
use zuvi_web.Catalog.{Product}
use zuvi_web.Inventory.Model.{
  opening, transaction_type_direction, InventoryTransaction, Inventory, product_row, set_stock,
  stock_of,
}
use zuvi_web.Inventory.Movement.{
  Movement, signed_delta, validate_positive_quantity, is_order_reference, reference_taken,
  movement_row, apply_stock_movement, record_balance,
}
use zuvi_web.Inventory.Movement.Effects.{apply-Accepted, create-eq-ok, Moved, apply-Moved}

-- A row's new balance is the previous one plus or minus a quantity above 0.
abbrev pub IsBalanced : InventoryTransaction → Type 0
IsBalanced t =
    (0 < t.quantity)
    × (pos t.new_quantity ≡ pos t.previous_quantity +ℤ signed_delta t.direction t.quantity)

-- No row after another repeats its order reference.
abbrev pub IsOnce : List InventoryTransaction → Type 0
IsOnce [] = Unit
IsOnce (t ∷ ts) = (reference_taken t.reference ts ≡ false) × IsOnce ts

abbrev pub last_row : ℕ → List InventoryTransaction → Option InventoryTransaction
last_row pk = find_last (λ t. t.product == pk)

-- The newest row of a product shows its stock.
abbrev pub Shows : Inventory → Type 0
Shows s =
    (pk : ℕ) (t : InventoryTransaction)
    → last_row pk s.transactions ≡ some t
    → stock_of pk s.products ≡ some t.new_quantity

pub record IsValid (s : Inventory) : Type 0 where
  pub balanced : All IsBalanced s.transactions
  pub once : IsOnce s.transactions
  pub shows : Shows s

pub stock_of-set_self :
    (pk n : ℕ) (ps : List Product) (p : Product)
    → product_row pk ps ≡ some p
    → stock_of pk (set_stock pk n ps) ≡ some n
stock_of-set_self pk n [] p h = cc
stock_of-set_self pk n (q ∷ ps) p h = ground (arith, stock_of-set_self pk n ps p)

pub stock_of-set_ne :
    (pk n j : ℕ) (ps : List Product)
    → (pk == j) ≡ false
    → stock_of j (set_stock pk n ps) ≡ stock_of j ps
stock_of-set_ne pk n j [] h = refl
stock_of-set_ne pk n j (q ∷ ps) h = ground (arith, stock_of-set_ne pk n j ps h)

pub stock_of-row :
    (pk : ℕ) (ps : List Product) (p : Product)
    → product_row pk ps ≡ some p
    → stock_of pk ps ≡ some p.stock_quantity
stock_of-row pk [] p h = cc
stock_of-row pk (q ∷ ps) p h = ground (arith, stock_of-row pk ps p)

pub last_row-append :
    (pk : ℕ) (ts : List InventoryTransaction) (t : InventoryTransaction)
    → last_row pk (ts ++ t ∷ []) ≡ (if t.product == pk then some t else last_row pk ts)
last_row-append pk [] t = refl
last_row-append pk (u ∷ ts) t = ground (arith, last_row-append pk ts t)

text_eq_sym : (r u : Text) → text_eq r u ≡ text_eq u r
text_eq_sym [] [] = refl
text_eq_sym [] (b ∷ u) = refl
text_eq_sym (a ∷ r) [] = refl
text_eq_sym (a ∷ r) (b ∷ u) = ground (arith, text_eq_sym r u)

-- A row behind `u` whose reference was free when `u` stood there.
taken-append :
    (r : Text) (t : InventoryTransaction) (ts : List InventoryTransaction)
    → reference_taken r ts ≡ false
    → is_order_reference t.reference && text_eq r t.reference ≡ false
    → reference_taken r (ts ++ t ∷ []) ≡ false
unfolding reference_taken
taken-append r t ts h k = elim (Bool-cases (text_eq r t.reference)) [
  | inl same ↦ ground (
    arith,
    any-append (λ (u : InventoryTransaction). text_eq u.reference r) ts (t ∷ []),
    ap is_order_reference (text_eq→eq r t.reference same),
    text_eq_sym t.reference r,
  )
  | inr differ ↦ ground (
    arith,
    any-append (λ (u : InventoryTransaction). text_eq u.reference r) ts (t ∷ []),
    text_eq_sym t.reference r,
  )
]

IsOnce-append :
    (ts : List InventoryTransaction) (t : InventoryTransaction)
    → IsOnce ts
    → reference_taken t.reference ts ≡ false
    → IsOnce (ts ++ t ∷ [])
unfolding reference_taken
IsOnce-append [] t h k = ground arith
IsOnce-append (u ∷ ts) t h k =
    (taken-append u.reference t ts h.0 (ground arith), IsOnce-append ts t h.1 (ground arith))

-- The row of a movement, as `IsBalanced` reads it.
row-IsBalanced :
    (m : Movement) (cost : Option ℕ) (n previous new : ℕ)
    → 0 < n
    → pos new ≡ pos previous +ℤ signed_delta (transaction_type_direction m.transaction_type) n
    → IsBalanced (movement_row m cost n previous new)
unfolding movement_row
row-IsBalanced m cost n previous new h e = (h, e)

row-product :
    (m : Movement) (cost : Option ℕ) (n previous new : ℕ)
    → ((movement_row m cost n previous new).product ≡ m.product)
      × ((movement_row m cost n previous new).new_quantity ≡ new)
unfolding movement_row
row-product m cost n previous new = (refl, refl)

pub validate-pos : (x : Decimal) {n : ℕ} → validate_positive_quantity x ≡ ok n → 0 < n
unfolding validate_positive_quantity running
validate-pos x h = ground arith

-- A new row of `pk` at the end that shows the new stock of `pk`.
Shows-step :
    (s s' : Inventory) (t : InventoryTransaction) (pk : ℕ)
    → s'.transactions ≡ s.transactions ++ t ∷ []
    → t.product ≡ pk
    → stock_of pk s'.products ≡ some t.new_quantity
    → ((j : ℕ) → (pk == j) ≡ false → stock_of j s'.products ≡ stock_of j s.products)
    → Shows s
    → Shows s'
Shows-step s s' t pk e here self others h j u last =
    ground (arith, last_row-append j s.transactions t, ap (last_row j) e, others j, h j u)

Moved-IsValid :
    (m : Movement) (s : Inventory) (n : ℕ) (p : Product) {r : InventoryTransaction × Inventory}
    → 0 < n
    → product_row m.product s.products ≡ some p
    → Moved m s n p.stock_quantity r
    → IsValid s
    → IsValid r.1
Moved-IsValid m s n p {r} above found moved v =
    let shape = row-product m moved.cost n p.stock_quantity moved.new in
    let own : r.0.product ≡ m.product =
      ap (λ (t : InventoryTransaction). t.product) moved.row ∙ shape.0 in
    let shown : r.0.new_quantity ≡ moved.new =
      ap (λ (t : InventoryTransaction). t.new_quantity) moved.row ∙ shape.1 in
    record {
      balanced = subst (All IsBalanced) (sym moved.transactions) (
          All-append IsBalanced s.transactions (r.0 ∷ []) v.balanced (
            subst IsBalanced (sym moved.row)
                (row-IsBalanced m moved.cost n p.stock_quantity moved.new above moved.balance),
            tt,
          ));
      once =
          subst IsOnce (sym moved.transactions)
            (IsOnce-append s.transactions r.0 v.once moved.fresh);
      shows =
          Shows-step s r.1 r.0 m.product moved.transactions own
            (ap (stock_of m.product) moved.products
              ∙ stock_of-set_self m.product moved.new s.products p found
              ∙ ap some (sym shown))
            (λ j ne.
              ap (stock_of j) moved.products ∙ stock_of-set_ne m.product moved.new j s.products ne)
            v.shows;
    }

opening_balance : (q : ℕ) → pos q ≡ pos 0 +ℤ signed_delta (transaction_type_direction opening) q
unfolding ◌+ℤ◌ signed_delta transaction_type_direction
opening_balance q = ground arith

-- A balance that is put on record: the row shows the stock, which stays.
recorded-IsValid :
    (m : Movement) (cost : Option ℕ) (n : ℕ) (s : Inventory) (p : Product)
    {r : InventoryTransaction × Inventory}
    → m.transaction_type ≡ opening
    → product_row m.product s.products ≡ some p
    → record_balance m cost n p.stock_quantity s ≡ ok r
    → IsValid s
    → IsValid r.1
unfolding record_balance
recorded-IsValid m cost n s p {r} is_in found h v =
    let (above, h₁) = raise_if-eq-ok (leb p.stock_quantity 0) (validation quantity) _ s h in
    let (same, h₂) = raise_if-eq-ok (not (n == p.stock_quantity)) (validation quantity) _ s h₁ in
    let (made, fresh) =
      create-eq-ok (movement_row m cost p.stock_quantity 0 p.stock_quantity) s h₂ in
    let t = movement_row m cost p.stock_quantity 0 p.stock_quantity in
    let shape = row-product m cost p.stock_quantity 0 p.stock_quantity in
    subst (λ (q : InventoryTransaction × Inventory). IsValid q.1) (sym made)
      (record {
        balanced = All-append IsBalanced s.transactions (t ∷ []) v.balanced (
          row-IsBalanced m cost p.stock_quantity 0 p.stock_quantity (ground arith)
              (rw is_in (opening_balance p.stock_quantity)),
          tt,
        );
        once = IsOnce-append s.transactions t v.once fresh;
        shows =
            Shows-step s (record s { transactions = s.transactions ++ t ∷ [] }) t m.product refl
              shape.0 (stock_of-row m.product s.products p found ∙ ap some (sym shape.1))
              (λ j ne. refl) v.shows;
      })

-- Every movement keeps the ledger valid, also one that only records an opening balance.
pub apply-IsValid :
    (today : ℕ) (m : Movement) (s : Inventory) {r : InventoryTransaction × Inventory}
    → (m.skip_product_update ≡ true → m.transaction_type ≡ opening)
    → apply_stock_movement today m s ≡ ok r
    → IsValid s
    → IsValid r.1
apply-IsValid today m s {r} skips h v = elim (Bool-cases m.skip_product_update) [
  | inl skip ↦
      let a = apply-Accepted today m s h in
      let put : record_balance m a.cost a.units a.locked.stock_quantity s ≡ ok r =
        ground (arith, a.finished) in
      recorded-IsValid m a.cost a.units s a.locked (skips skip) a.found put v
  | inr moves ↦
      let (n, p, hn, found, moved) = apply-Moved today m s moves h in
      Moved-IsValid m s n p (validate-pos m.quantity hn) found moved v
]
