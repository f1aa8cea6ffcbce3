-- ===== src/Orders/Lifecycle/Cascade.antt =====
-- What the cascades of orders/management_status.py do to the rows of the store orders.
use zuvi_web.Prelude.{
  ℕ, ◌≡◌, refl, sym, subst, Bool, true, false, not, ◌||◌, List, [], ◌∷◌, any, select, arith,
  Bool-cases, inl, inr,
}
use zuvi_web.Prelude.Text.{Text}
use zuvi_web.Prelude.Effect.{Result, ok, ran, raise_if-eq-ok, modified, validation, status}
use zuvi_web.Orders.Model.{
  OrderStatus, StoreOrderStatus, StoreOrder, StoreOrderStatusHistory, OrderGraph, Call,
  replace_store_order, same_order_status,
}
use zuvi_web.Orders.Status.{non_chargeable}
use zuvi_web.Orders.Sync.{ready_tier, is_completed}
use zuvi_web.Orders.Sync.Rules.{chargeable}
use zuvi_web.Orders.Transitions.{active_store_orders, completable}
use zuvi_web.Orders.Management.{
  complete_store_order, complete_store_orders, complete_active_store_orders,
  status_before_completion, reopen_store_order, reopen_store_orders, reopen_completed_store_orders,
  cascade,
}
use zuvi_web.Orders.Lifecycle.{some_row}
use zuvi_web.Orders.Lifecycle.Sweep.{Sweep, saved, done, save, skip}

pub some_row-ext :
    (p q : StoreOrderStatus → Bool) (rows : List StoreOrder)
    → ((s : StoreOrderStatus) → p s ≡ q s)
    → some_row p rows ≡ some_row q rows
some_row-ext p q [] h = refl
some_row-ext p q (r ∷ rows) h = ground (arith, h r.status, some_row-ext p q rows h)

abbrev pub settled : StoreOrderStatus → Bool
settled s = not (chargeable s) || is_completed s

abbrev pub reopened : StoreOrderStatus → Bool
reopened s = not (is_completed s)

pub complete_one-stays :
    (c : Call) (reason : Text) (so : StoreOrder) (g : OrderGraph)
    → is_completed so.status ≡ true
    → (complete_store_order c reason so g).store_orders ≡ g.store_orders
unfolding complete_store_order
complete_one-stays c reason so g e = ground (arith, e)

pub complete_one-saves :
    (c : Call) (reason : Text) (so : StoreOrder) (g : OrderGraph)
    → is_completed so.status ≡ false
    → (complete_store_order c reason so g).store_orders
      ≡ replace_store_order (saved so StoreOrderStatus.completed) g.store_orders
unfolding complete_store_order
complete_one-saves c reason so g e = ground (arith, e)

pub complete-Sweep :
    (c : Call) (reason : Text) (items : List StoreOrder) (g : OrderGraph)
    → Sweep settled chargeable items g.store_orders
        (complete_store_orders c reason items g).store_orders
unfolding complete_store_orders non_chargeable
complete-Sweep c reason [] g = done
complete-Sweep c reason (so ∷ items) g =
    let k = complete_store_order c reason so g in
    let rest = complete-Sweep c reason items k in
    elim (Bool-cases (is_completed so.status)) [
      | inl e ↦ skip so (ground (arith, e)) (
          subst
            (λ (rows : List StoreOrder).
              Sweep settled chargeable items rows
                (complete_store_orders c reason items k).store_orders)
            (complete_one-stays c reason so g e) rest)
      | inr e ↦ save so StoreOrderStatus.completed refl refl (
          subst
            (λ (rows : List StoreOrder).
              Sweep settled chargeable items rows
                (complete_store_orders c reason items k).store_orders)
            (complete_one-saves c reason so g e) rest)
    ]

pub before-ready :
    (history : List StoreOrderStatusHistory) (pk : ℕ)
    → (reopened (status_before_completion history pk) ≡ true)
      × (chargeable (status_before_completion history pk) ≡ true)
unfolding status_before_completion ready_tier non_chargeable
before-ready history pk = ground arith

pub reopen-Sweep :
    (c : Call) (note : Text) (items : List StoreOrder) (g : OrderGraph)
    → Sweep reopened chargeable items g.store_orders
        (reopen_store_orders c note items g).store_orders
unfolding reopen_store_orders reopen_store_order
reopen-Sweep c note [] g = done
reopen-Sweep c note (so ∷ items) g =
    let (open_again, charged) = before-ready g.store_status_history so.pk in
    save so (status_before_completion g.store_status_history so.pk) open_again charged
      (reopen-Sweep c note items (reopen_store_order c note so g))

-- What a cascade does to the rows.
pub data Cascade : Bool → OrderStatus → List StoreOrder → List StoreOrder → Type 0 where
  reopens :
      (new : OrderStatus) {rows rows' : List StoreOrder}
      → Sweep reopened chargeable
          (select (λ (so : StoreOrder). is_completed so.status) rows)
          rows
          rows'
      → Cascade true new rows rows'
  completes :
      {rows rows' : List StoreOrder}
      → Sweep settled chargeable (active_store_orders rows) rows rows'
      → Cascade false OrderStatus.completed rows rows'
  stays :
      (new : OrderStatus) {rows : List StoreOrder}
      → same_order_status new OrderStatus.completed ≡ false
      → Cascade false new rows rows

pub stays-Cascade :
    (new : OrderStatus)
    → same_order_status new OrderStatus.completed ≡ false
    → (g : OrderGraph) {r : Unit {0} × OrderGraph}
    → ◌≡◌ {A = Result (Unit {0} × OrderGraph)} (ok (tt, g)) (ok r)
    → Cascade false new g.store_orders r.1.store_orders
stays-Cascade new e g h =
    subst (λ (k : OrderGraph). Cascade false new g.store_orders k.store_orders)
      (sym (modified (λ k. k) g h)) (stays new e)

pub completes-Cascade :
    (c : Call) (reason : Text) (g : OrderGraph) {r : Unit {0} × OrderGraph}
    → complete_active_store_orders c reason g ≡ ok r
    → Cascade false OrderStatus.completed g.store_orders r.1.store_orders
unfolding complete_active_store_orders
completes-Cascade c reason g h =
    let active = active_store_orders g.store_orders in
    let h₁ = ran g g _ h in
    let (fit, h₂) =
      raise_if-eq-ok (any (λ (so : StoreOrder). not (completable so.status)) active)
        (validation status) _ g h₁ in
    subst (λ (k : OrderGraph). Cascade false OrderStatus.completed g.store_orders k.store_orders)
      (sym (modified (complete_store_orders c reason active) g h₂))
      (completes (complete-Sweep c reason active g))

pub cascade-Cascade :
    (c : Call) (reason note : Text) (b : Bool) (new : OrderStatus) (g : OrderGraph)
    {r : Unit {0} × OrderGraph}
    → cascade c reason note b new g ≡ ok r
    → Cascade b new g.store_orders r.1.store_orders
unfolding cascade reopen_completed_store_orders
cascade-Cascade c reason note true new g h =
    subst (λ (k : OrderGraph). Cascade true new g.store_orders k.store_orders)
      (sym (modified (reopen_completed_store_orders c note) g h))
      (reopens new (reopen-Sweep c note _ g))
cascade-Cascade c reason note false OrderStatus.completed g h = completes-Cascade c reason g h
cascade-Cascade c reason note false OrderStatus.placed g h = stays-Cascade _ refl g h
cascade-Cascade c reason note false OrderStatus.confirmed g h = stays-Cascade _ refl g h
cascade-Cascade c reason note false OrderStatus.in_progress g h = stays-Cascade _ refl g h
cascade-Cascade c reason note false OrderStatus.partially_cancelled g h = stays-Cascade _ refl g h
cascade-Cascade c reason note false OrderStatus.cancelled g h = stays-Cascade _ refl g h
