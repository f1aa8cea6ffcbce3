-- ===== src/Orders/Lifecycle/Rows.antt =====
-- Store orders that are saved one by one, orders/cancellation.py and orders/management_status.py.
use zuvi_web.Prelude.{
  ℕ, ◌≡◌, refl, sym, ap, ◌∙◌, subst, Bool, true, false, not, ◌||◌, some, List, [], ◌∷◌, any, All,
  map, find, ◌==◌, arith, Bool-cases, inl, inr,
}
use zuvi_web.Orders.Model.{StoreOrderStatus, StoreOrder, replace_store_order}
use zuvi_web.Orders.Lifecycle.{some_row, ApartRows}

pub any-statuses :
    (p : StoreOrderStatus → Bool) (rows : List StoreOrder)
    → any p (map (λ (so : StoreOrder). so.status) rows) ≡ some_row p rows
any-statuses p [] = refl
any-statuses p (r ∷ rows) = ground (arith, any-statuses p rows)

module _ (p : StoreOrderStatus → Bool) (x : StoreOrder) where
  pub some_row-replace :
      (rows : List StoreOrder)
      → some_row p (replace_store_order x rows) ≡ true
      → (p x.status || some_row p rows) ≡ true
  some_row-replace [] h = cc
  some_row-replace (r ∷ rows) h = ground (arith, some_row-replace rows)

  pub some_row-replaced :
      (rows : List StoreOrder)
      → some_row p rows ≡ true
      → p x.status ≡ true
      → some_row p (replace_store_order x rows) ≡ true
  some_row-replaced [] h k = cc
  some_row-replaced (r ∷ rows) h k = ground (arith, k, some_row-replaced rows)

  pub some_row-found :
      (pk : ℕ) (rows : List StoreOrder)
      → find (λ (so : StoreOrder). so.pk == pk) rows ≡ some x
      → p x.status ≡ true
      → some_row p rows ≡ true
  some_row-found pk [] h k = cc
  some_row-found pk (r ∷ rows) h k = elim (Bool-cases (r.pk == pk)) [
    | inl here ↦
        let same : r ≡ x = ground (arith, here) in
        let q : p r.status ≡ true = ap (λ (so : StoreOrder). p so.status) same ∙ k in
        ground (arith, q)
    | inr other ↦ ground (arith, other, some_row-found pk rows)
  ]

pub replace-keys :
    (x : StoreOrder) (k : ℕ) (rows : List StoreOrder)
    → any (λ (so : StoreOrder). so.pk == k) (replace_store_order x rows)
      ≡ any (λ (so : StoreOrder). so.pk == k) rows
replace-keys x k [] = refl
replace-keys x k (r ∷ rows) = elim (Bool-cases (r.pk == x.pk)) [
  | inl here ↦
      let same : r.pk ≡ x.pk = ground arith in ground (arith, here, same, replace-keys x k rows)
  | inr other ↦ ground (arith, other, replace-keys x k rows)
]

pub replace-apart :
    (x : StoreOrder) (rows : List StoreOrder)
    → ApartRows rows
    → ApartRows (replace_store_order x rows)
replace-apart x [] h = tt
replace-apart x (r ∷ rows) h = (
  elim (Bool-cases (r.pk == x.pk)) [
    | inl here ↦
        let same : r.pk ≡ x.pk = ground arith in
        ground (arith, here, same, replace-keys x r.pk rows, h.0)
    | inr other ↦ ground (arith, other, replace-keys x r.pk rows, h.0)
  ],
  replace-apart x rows h.1,
)

-- Among rows with different keys, saving the row that is there changes nothing.
replace_absent :
    (x : StoreOrder) (rows : List StoreOrder)
    → any (λ (so : StoreOrder). so.pk == x.pk) rows ≡ false
    → replace_store_order x rows ≡ rows
replace_absent x [] h = refl
replace_absent x (r ∷ rows) h = ground (arith, replace_absent x rows)

pub found-pk :
    (pk : ℕ) (x : StoreOrder) (rows : List StoreOrder)
    → find (λ (so : StoreOrder). so.pk == pk) rows ≡ some x
    → x.pk ≡ pk
found-pk pk x [] h = cc
found-pk pk x (r ∷ rows) h = elim (Bool-cases (r.pk == pk)) [
  | inl here ↦
      let same : r ≡ x = ground (arith, here) in
      let key : r.pk ≡ pk = ground arith in ap (λ (so : StoreOrder). so.pk) (sym same) ∙ key
  | inr other ↦ found-pk pk x rows (ground (arith, other))
]

pub replace_found :
    (pk : ℕ) (x : StoreOrder) (rows : List StoreOrder)
    → ApartRows rows
    → find (λ (so : StoreOrder). so.pk == pk) rows ≡ some x
    → replace_store_order x rows ≡ rows
replace_found pk x [] a h = refl
replace_found pk x (r ∷ rows) a h = elim (Bool-cases (r.pk == pk)) [
  | inl here ↦
      let same : x ≡ r = ground (arith, here) in
      subst (λ (y : StoreOrder). replace_store_order y (r ∷ rows) ≡ r ∷ rows) (sym same)
        (ground (arith, a.0, replace_absent r rows))
  | inr other ↦
      let there : find (λ (so : StoreOrder). so.pk == pk) rows ≡ some x = ground (arith, other) in
      let key : x.pk ≡ pk = found-pk pk x rows there in
      ground (arith, other, key, replace_found pk x rows a.1 there)
]

pub some_row-all :
    (p : StoreOrderStatus → Bool) (rows : List StoreOrder)
    → All (λ (r : StoreOrder). p r.status ≡ true) rows
    → some_row (λ s. not (p s)) rows ≡ false
some_row-all p [] all = refl
some_row-all p (r ∷ rows) all = ground (arith, all.0, some_row-all p rows all.1)
