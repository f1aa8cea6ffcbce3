-- ===== src/Orders/Lifecycle/Moves.antt =====
-- The moves of the management portal, orders/management_status.py, keep an order consistent.
use zuvi_web.Prelude.{
  ℕ, ◌≡◌, refl, sym, ◌∙◌, subst, Bool, true, false, not, ◌||◌, Option, none, some, List, [], ◌∷◌,
  select, arith, inl, inr,
}
use zuvi_web.Prelude.Text.{Text, strip}
use zuvi_web.Prelude.Effect.{ok, running, ran, check-eq-ok, and_then-eq-ok, modified, unless-eq-ok}
use zuvi_web.Orders.Model.{
  PaymentStatus, OrderStatus, Order, StoreOrder, OrderGraph, Call, put_order, add_status_history,
  same_order_status, same_order_status→eq, same_payment_status,
}
use zuvi_web.Orders.Status.{non_chargeable}
use zuvi_web.Orders.Sync.{is_completed}
use zuvi_web.Orders.Sync.Rules.{chargeable, unfinished}
use zuvi_web.Orders.Transitions.{
  active_store_orders, is_order_status_reversal, order_status_transition, order_reversal_allowed,
}
use zuvi_web.Orders.Management.{
  cascade, check_order_move, move_order, moved_order, update_order_status, read_order_status,
  change_order, change_order_to, status_entry,
}
use zuvi_web.Orders.Lifecycle.{some_row, IsConsistent}
use zuvi_web.Orders.Lifecycle.Sweep.{Sweep, Sweep-apart, Sweep-keeps, Sweep-adds, Sweep-select}
use zuvi_web.Orders.Lifecycle.Cascade.{
  some_row-ext, settled, reopened, Cascade, reopens, completes, stays, cascade-Cascade,
}

-- What the guards let through.
reversal-facts :
    (o : Order) (new : OrderStatus) (note : Text)
    → check_order_move o new note ≡ ok tt
    → is_order_status_reversal o new ≡ true
    → (same_order_status o.status OrderStatus.completed ≡ true)
      × (same_order_status new OrderStatus.in_progress ≡ true)
      × (same_payment_status o.payment_status PaymentStatus.collected ≡ false)
unfolding check_order_move is_order_status_reversal order_reversal_allowed running
reversal-facts o new note h e = ground arith

forward-facts :
    (o : Order) (new : OrderStatus) (note : Text)
    → check_order_move o new note ≡ ok tt
    → is_order_status_reversal o new ≡ false
    → order_status_transition o.status new ≡ true
unfolding check_order_move running
forward-facts o new note h e = ground arith

settled-unfinished :
    (rows : List StoreOrder) → some_row (λ s. not (settled s)) rows ≡ some_row unfinished rows
unfolding non_chargeable
settled-unfinished rows = some_row-ext _ _ rows (λ s. ground arith)

reopened-completed :
    (rows : List StoreOrder) → some_row (λ s. not (reopened s)) rows ≡ some_row is_completed rows
reopened-completed rows = some_row-ext _ _ rows (λ s. ground arith)

-- No chargeable row: none that is open, and none that is completed. And the converse.
pub parts-chargeable :
    (rows : List StoreOrder)
    → some_row chargeable rows ≡ some_row unfinished rows || some_row is_completed rows
unfolding non_chargeable
parts-chargeable [] = refl
parts-chargeable (r ∷ rows) = ground (arith, parts-chargeable rows)

reopened-IsConsistent :
    (now : ℕ) (o : Order) (new : OrderStatus) (rows rows' : List StoreOrder)
    → Sweep reopened chargeable
        (select (λ (so : StoreOrder). is_completed so.status) rows)
        rows
        rows'
    → same_order_status o.status OrderStatus.completed ≡ true
    → same_order_status new OrderStatus.in_progress ≡ true
    → same_payment_status o.payment_status PaymentStatus.collected ≡ false
    → IsConsistent o rows
    → IsConsistent (moved_order now true new o) rows'
reopened-IsConsistent now o new rows rows' w was to unpaid v =
    let none_done : some_row is_completed rows' ≡ false =
      sym (reopened-completed rows')
      ∙ Sweep-select reopened chargeable (λ (so : StoreOrder). is_completed so.status)
          (λ so e. ground arith) w in
    let status_was : o.status ≡ OrderStatus.completed = same_order_status→eq _ _ was in
    let status_now : new ≡ OrderStatus.in_progress = same_order_status→eq _ _ to in
    record {
      apart = Sweep-apart reopened chargeable w v.apart;
      collected = λ e. ground arith;
      delivered = λ e. ground (arith, status_now);
      fulfilled = λ e. ground (arith, none_done);
      closed = λ e. ground (arith, status_now);
      released = λ e. ground (arith, status_now);
      emptied = λ e f. ground (
        arith,
        v.emptied,
        Sweep-keeps reopened chargeable w,
        Sweep-adds reopened chargeable w,
        status_was,
      );
    }

completed-IsConsistent :
    (now : ℕ) (o : Order) (rows rows' : List StoreOrder)
    → Sweep settled chargeable (active_store_orders rows) rows rows'
    → order_status_transition o.status OrderStatus.completed ≡ true
    → IsConsistent o rows
    → IsConsistent (moved_order now false OrderStatus.completed o) rows'
unfolding active_store_orders order_status_transition non_chargeable
completed-IsConsistent now o rows rows' w may v = record {
  apart = Sweep-apart settled chargeable w v.apart;
  collected = λ e. refl;
  delivered = λ e.
      sym (settled-unfinished rows')
      ∙ Sweep-select settled chargeable (λ (so : StoreOrder). not (non_chargeable so.status))
          (λ so f. ground arith) w;
  fulfilled = λ e. refl;
  closed = λ e. ground arith;
  released = λ e. ground arith;
  emptied = λ e f.
      ground
        (arith, v.emptied, Sweep-keeps settled chargeable w, Sweep-adds settled chargeable w, may);
}

moved-fields :
    (now : ℕ) (new : OrderStatus) (o : Order)
    → ((moved_order now false new o).status ≡ new)
      × ((moved_order now false new o).payment_status ≡ o.payment_status)
moved-fields now new o = ground arith

stayed-IsConsistent :
    (now : ℕ) (o : Order) (new : OrderStatus) (rows : List StoreOrder)
    → same_order_status new OrderStatus.completed ≡ false
    → order_status_transition o.status new ≡ true
    → IsConsistent o rows
    → IsConsistent (moved_order now false new o) rows
unfolding order_status_transition
stayed-IsConsistent now o new rows other may v =
    let (now_status, now_payment) = moved-fields now new o in
    record {
      apart = v.apart;
      collected = λ e. ground (arith, v.collected (sym now_payment ∙ e), may);
      delivered = λ e. ground (arith, sym now_status ∙ e, other);
      fulfilled = λ e. ground (arith, v.fulfilled e, may);
      closed = λ e. ground (arith, sym now_status ∙ e, may);
      released = λ e. ground (arith, sym now_status ∙ e, may);
      emptied = λ e f. ground (arith, v.emptied e f, may);
    }

Cascade-IsConsistent :
    (now : ℕ) (o : Order) (note : Text) (b : Bool) (new : OrderStatus)
    {rows rows' : List StoreOrder}
    → Cascade b new rows rows'
    → is_order_status_reversal o new ≡ b
    → check_order_move o new note ≡ ok tt
    → IsConsistent o rows
    → IsConsistent (moved_order now b new o) rows'
Cascade-IsConsistent now o note true new (reopens _ {rows} {rows'} w) e h v =
    let (was, to, unpaid) = reversal-facts o new note h e in
    reopened-IsConsistent now o new rows rows' w was to unpaid v
Cascade-IsConsistent now o note false _ (completes {rows} {rows'} w) e h v =
    completed-IsConsistent now o rows rows' w (forward-facts o OrderStatus.completed note h e) v
Cascade-IsConsistent now o note false new (stays _ {rows} other) e h v =
    stayed-IsConsistent now o new rows other (forward-facts o new note h e) v

move_order-IsConsistent :
    (c : Call) (reason note : Text) (new : OrderStatus) (g : OrderGraph) {r : Unit {0} × OrderGraph}
    → move_order c reason note new g ≡ ok r
    → IsConsistent g.order g.store_orders
    → IsConsistent r.1.order r.1.store_orders
unfolding move_order
move_order-IsConsistent c reason note new g {r} h v =
    let h₁ = ran g g _ h in
    let (valid, h₂) = check-eq-ok (check_order_move g.order new note) _ g h₁ in
    let b = is_order_status_reversal g.order new in
    let (u, k, e, h₃) = and_then-eq-ok (cascade c reason note b new g) _ h₂ in
    let moved : OrderGraph = put_order (moved_order c.now b new g.order) k in
    let h₄ = ran tt moved _ h₃ in
    let e₄ =
      modified (add_status_history (status_entry c reason note b g.order.status new)) moved h₄ in
    let v' =
      Cascade-IsConsistent c.now g.order note b new (cascade-Cascade c reason note b new g e) refl
        valid v in
    subst (λ (q : OrderGraph). IsConsistent q.order q.store_orders) (sym e₄) v'

change_order-IsConsistent :
    (c : Call) (reason note : Text) (new : OrderStatus) (g : OrderGraph) {r : Unit {0} × OrderGraph}
    → change_order c reason note new g ≡ ok r
    → IsConsistent g.order g.store_orders
    → IsConsistent r.1.order r.1.store_orders
unfolding change_order
change_order-IsConsistent c reason note new g h v =
    elim (unless-eq-ok (same_order_status new g.order.status) (move_order c reason note new) g
      (ran g g _ h)) [
        | inl same ↦ subst (λ (q : OrderGraph). IsConsistent q.order q.store_orders) (sym same) v
        | inr moved ↦ move_order-IsConsistent c reason note new g moved v
      ]

change_order_to-IsConsistent :
    (c : Call) (reason note : Text) (new : Option OrderStatus) (g : OrderGraph)
    {r : Unit {0} × OrderGraph}
    → change_order_to c reason note new g ≡ ok r
    → IsConsistent g.order g.store_orders
    → IsConsistent r.1.order r.1.store_orders
unfolding change_order_to
change_order_to-IsConsistent c reason note none g h v = cc
change_order_to-IsConsistent c reason note (some OrderStatus.cancelled) g h v = cc
change_order_to-IsConsistent c reason note (some OrderStatus.placed) g h v =
    change_order-IsConsistent c reason note _ g h v
change_order_to-IsConsistent c reason note (some OrderStatus.confirmed) g h v =
    change_order-IsConsistent c reason note _ g h v
change_order_to-IsConsistent c reason note (some OrderStatus.in_progress) g h v =
    change_order-IsConsistent c reason note _ g h v
change_order_to-IsConsistent c reason note (some OrderStatus.completed) g h v =
    change_order-IsConsistent c reason note _ g h v
change_order_to-IsConsistent c reason note (some OrderStatus.partially_cancelled) g h v =
    change_order-IsConsistent c reason note _ g h v

-- A change of an order's status by the management keeps the order consistent.
pub update_order_status-IsConsistent :
    (c : Call) (new_status reason note : Text) (g : OrderGraph) {r : Unit {0} × OrderGraph}
    → update_order_status c new_status reason note g ≡ ok r
    → IsConsistent g.order g.store_orders
    → IsConsistent r.1.order r.1.store_orders
unfolding update_order_status
update_order_status-IsConsistent c new_status reason note g h v =
    change_order_to-IsConsistent c reason (strip note) (read_order_status new_status) g h v
