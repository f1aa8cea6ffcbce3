-- ===== src/Inventory/Records/Opening.antt =====
-- The initialization of opening stock, inventory/services.py, may be run again.
use zuvi_web.Prelude.{
  ℕ, ◌≡◌, refl, sym, ap, ◌∙◌, subst, Bool, true, false, not, ◌||◌, Option, List, [], ◌∷◌, ◌++◌, leb,
  ◌==◌, if◌then◌else◌, any-append, select, All, arith, Bool-cases, inl, inr,
}
use zuvi_web.Prelude.Text.{Text, text}
use zuvi_web.Prelude.Effect.{
  ok, and_then, ran, and_then-eq-ok, or_raise-eq-ok, raise_if-eq-ok, does_not_exist, validation,
  stock_quantity, quantity,
}
use zuvi_web.Catalog.{Product}
use zuvi_web.Inventory.Model.{InventoryTransaction, Inventory, product_row}
use zuvi_web.Inventory.Movement.{Movement, movement_row, record_balance, apply_stock_movement}
use zuvi_web.Inventory.Movement.Effects.{apply-Accepted, create-eq-ok}
use zuvi_web.Inventory.Records.{
  conversion, convert_existing_opening_stock, has_history, needs_opening,
  products_needing_opening_stock_initialization, initialize_product, initialize_unless,
  initialize_products, initialize_opening_stock_from_catalogue,
}

-- A call that adds one row of a product to the ledger and leaves the products.
pub record Adds (pk : ℕ) (s t : Inventory) : Type 0 where
  pub row : InventoryTransaction
  pub products : t.products ≡ s.products
  pub transactions : t.transactions ≡ s.transactions ++ row ∷ []
  pub owner : row.product ≡ pk

recorded-Adds :
    (m : Movement) (cost : Option ℕ) (n previous : ℕ) (s : Inventory)
    {r : InventoryTransaction × Inventory}
    → record_balance m cost n previous s ≡ ok r
    → Adds m.product s r.1
unfolding record_balance movement_row
recorded-Adds m cost n previous s {r} h =
    let (above, h₁) = raise_if-eq-ok (leb previous 0) (validation quantity) _ s h in
    let (same, h₂) = raise_if-eq-ok (not (n == previous)) (validation quantity) _ s h₁ in
    let made = (create-eq-ok (movement_row m cost previous 0 previous) s h₂).0 in
    record {
      row = movement_row m cost previous 0 previous;
      products = ap (λ (q : InventoryTransaction × Inventory). q.1.products) made;
      transactions = ap (λ (q : InventoryTransaction × Inventory). q.1.transactions) made;
      owner = refl;
    }

skipped-Adds :
    (today : ℕ) (m : Movement) (s : Inventory) {r : InventoryTransaction × Inventory}
    → m.skip_product_update ≡ true
    → apply_stock_movement today m s ≡ ok r
    → Adds m.product s r.1
skipped-Adds today m s {r} skip h =
    let a = apply-Accepted today m s h in
    let put : record_balance m a.cost a.units a.locked.stock_quantity s ≡ ok r =
      ground (arith, a.finished) in
    recorded-Adds m a.cost a.units a.locked.stock_quantity s put

convert-Adds :
    (today product store : ℕ) (actor : Option ℕ) (why : Text) (s : Inventory)
    {r : InventoryTransaction × Inventory}
    → convert_existing_opening_stock today product store actor why s ≡ ok r
    → Adds product s r.1
unfolding convert_existing_opening_stock conversion
convert-Adds today product store actor why s h =
    let h₁ = ran s s _ h in
    let (locked, found, h₂) =
      or_raise-eq-ok does_not_exist (product_row product s.products) _ s h₁ in
    skipped-Adds today (conversion product store actor why locked.stock_quantity) s refl h₂

initialize_product-Adds :
    (today : ℕ) (actor : Option ℕ) (p : Product) (s : Inventory)
    {r : InventoryTransaction × Inventory}
    → initialize_product today actor p s ≡ ok r
    → Adds p.pk s r.1
unfolding initialize_product
initialize_product-Adds today actor p s {r} h =
    let why = text "Initialized opening stock from existing catalogue balance" in
    let (t, k, e, h₁) =
      and_then-eq-ok (convert_existing_opening_stock today p.pk p.store actor why s) _ h in
    let h₂ = ran k k _ h₁ in
    let (fresh, found, h₃) = or_raise-eq-ok does_not_exist (product_row p.pk k.products) _ k h₂ in
    let (same, h₄) =
      raise_if-eq-ok (not (fresh.stock_quantity == p.stock_quantity)) (validation stock_quantity) _
        k h₃ in
    let end : r ≡ (t, k) = cc h₄ in
    subst (λ (q : InventoryTransaction × Inventory). Adds p.pk s q.1) (sym end)
      (convert-Adds today p.pk p.store actor why s e)

-- Products stay, history only grows, and the given products have history or no stock.
record Initialized (ps : List Product) (s t : Inventory) : Type 0 where
  products : t.products ≡ s.products
  grows : (pk : ℕ) → has_history s.transactions pk ≡ true → has_history t.transactions pk ≡ true
  all_done :
      All (λ (p : Product). (has_history t.transactions p.pk || leb p.stock_quantity 0) ≡ true) ps

Adds-Initialized : (p : Product) (s t : Inventory) → Adds p.pk s t → Initialized (p ∷ []) s t
Adds-Initialized p s t a =
    let whole : (pk : ℕ)
        → has_history t.transactions pk
          ≡ has_history s.transactions pk || (a.row.product == pk || false) =
      λ pk.
        ap (λ (ts : List InventoryTransaction). has_history ts pk) a.transactions
        ∙ any-append (λ (u : InventoryTransaction). u.product == pk) s.transactions (a.row ∷ []) in
    record {
      products = a.products;
      grows = λ pk h. ground (arith, whole pk, h);
      all_done = (ground (arith, whole p.pk, a.owner), tt);
    }

unless-Initialized :
    (today : ℕ) (actor : Option ℕ) (p : Product) (b : Bool) (s : Inventory)
    {r : List InventoryTransaction × Inventory}
    → (has_history s.transactions p.pk || leb p.stock_quantity 0) ≡ b
    → initialize_unless today actor p b s ≡ ok r
    → Initialized (p ∷ []) s r.1
unfolding initialize_unless
unless-Initialized today actor p true s {r} e h =
    let same : r ≡ ([], s) = cc h in
    let here : Initialized (p ∷ []) s s = record {
      products = refl;
      grows = λ pk k. k;
      all_done = (e, tt);
    } in
    subst (λ (q : List InventoryTransaction × Inventory). Initialized (p ∷ []) s q.1) (sym same)
      here
unless-Initialized today actor p false s {r} e h =
    let (t, k, run, h₁) = and_then-eq-ok (initialize_product today actor p s) _ h in
    let same : r ≡ (t ∷ [], k) = cc h₁ in
    subst (λ (q : List InventoryTransaction × Inventory). Initialized (p ∷ []) s q.1) (sym same)
      (Adds-Initialized p s k (initialize_product-Adds today actor p s run))

loop-Initialized :
    (today : ℕ) (actor : Option ℕ) (ps : List Product) (s : Inventory)
    {r : List InventoryTransaction × Inventory}
    → initialize_products today actor ps s ≡ ok r
    → Initialized ps s r.1
unfolding initialize_products
loop-Initialized today actor [] s {r} h =
    let same : r ≡ ([], s) = cc h in
    let here : Initialized [] s s = record { products = refl; grows = λ pk k. k; all_done = tt } in
    subst (λ (q : List InventoryTransaction × Inventory). Initialized [] s q.1) (sym same) here
loop-Initialized today actor (p ∷ ps) s {r} h =
    let b = has_history s.transactions p.pk || leb p.stock_quantity 0 in
    let (made, k, first, h₁) =
      and_then-eq-ok (initialize_unless today actor p b s) _ (ran s s _ h) in
    let (rest, t, later, h₂) = and_then-eq-ok (initialize_products today actor ps k) _ h₁ in
    let same : r ≡ (made ++ rest, t) = cc h₂ in
    let one = unless-Initialized today actor p b s refl first in
    let others = loop-Initialized today actor ps k later in
    let both : Initialized (p ∷ ps) s t = record {
      products = others.products ∙ one.products;
      grows = λ pk e. others.grows pk (one.grows pk e);
      all_done = (ground (arith, one.all_done.0, others.grows p.pk), others.all_done);
    } in
    subst (λ (q : List InventoryTransaction × Inventory). Initialized (p ∷ ps) s q.1) (sym same)
      both

none_needed :
    (before after : List InventoryTransaction) (ps : List Product)
    → ((pk : ℕ) → has_history before pk ≡ true → has_history after pk ≡ true)
    → All
        (λ (p : Product). (has_history after p.pk || leb p.stock_quantity 0) ≡ true)
        (select (needs_opening before) ps)
    → select (needs_opening after) ps ≡ []
none_needed before after [] grows all = refl
none_needed before after (p ∷ ps) grows all =
    let rest = select (needs_opening before) ps in
    let Done : List Product → Type 0 =
      λ qs. All (λ (q : Product). (has_history after q.pk || leb q.stock_quantity 0) ≡ true) qs in
    elim (Bool-cases (needs_opening before p)) [
      | inl needed ↦
          let done : Done (p ∷ rest) =
            subst (λ (b : Bool). Done (if b then p ∷ rest else rest)) needed all in
          let off : needs_opening after p ≡ false = ground (arith, done.0) in
          rw off (none_needed before after ps grows done.1)
      | inr fine ↦
          let done : Done rest =
            subst (λ (b : Bool). Done (if b then p ∷ rest else rest)) fine all in
          let off : needs_opening after p ≡ false = ground (arith, fine, grows p.pk) in
          rw off (none_needed before after ps grows done)
    ]

idle :
    (today : ℕ) (actor : Option ℕ) (s : Inventory)
    → products_needing_opening_stock_initialization s ≡ []
    → initialize_opening_stock_from_catalogue today actor s ≡ ok ([], s)
unfolding initialize_opening_stock_from_catalogue initialize_products and_then
idle today actor s e = ap (λ (l : List Product). initialize_products today actor l s) e

-- After an initialization that returned, the products and their balances are as before, no product
-- needs one, and a second one, by anyone on any day, makes no row and changes nothing.
pub initialize_opening_stock_again :
    (today later : ℕ) (actor actor' : Option ℕ) (s : Inventory)
    {r : List InventoryTransaction × Inventory}
    → initialize_opening_stock_from_catalogue today actor s ≡ ok r
    → (r.1.products ≡ s.products)
      × (products_needing_opening_stock_initialization r.1 ≡ [])
      × (initialize_opening_stock_from_catalogue later actor' r.1 ≡ ok ([], r.1))
unfolding initialize_opening_stock_from_catalogue products_needing_opening_stock_initialization
initialize_opening_stock_again today later actor actor' s {r} h =
    let ps = select (needs_opening s.transactions) s.products in
    let v = loop-Initialized today actor ps s (ran s s _ h) in
    let none_left : select (needs_opening r.1.transactions) r.1.products ≡ [] =
      ap (select (needs_opening r.1.transactions)) v.products
      ∙ none_needed s.transactions r.1.transactions s.products v.grows v.all_done in
    (v.products, none_left, idle later actor' r.1 none_left)
