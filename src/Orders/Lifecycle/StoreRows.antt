-- ===== src/Orders/Lifecycle/StoreRows.antt =====
-- A store order that moves forward, orders/store_status.py, and the row of a rejected one.
use zuvi_web.Prelude.{
  ℕ, ◌≡◌, refl, sym, ap, ◌∙◌, subst, true, false, not, none, some, List, find, ◌==◌, arith, inl,
  inr, Bool-cases,
}
use zuvi_web.Prelude.Text.{Text}
use zuvi_web.Prelude.Effect.{ok, running, ran, raise_if-eq-ok, modified, validation, status}
use zuvi_web.Orders.Model.{
  StoreOrderStatus, Order, StoreOrder, OrderItem, OrderGraph, Call, same_store_order_status,
  replace_store_order,
}
use zuvi_web.Orders.Status.{
  non_chargeable, is_rejected_status, store_rejectable, validate_store_order_rejection,
}
use zuvi_web.Orders.Sync.{is_completed, sync_order_status_from_store_orders}
use zuvi_web.Orders.Sync.Rules.{chargeable, unfinished}
use zuvi_web.Orders.StoreStatus.{
  ForwardAction, source_status, target_status, forward_reason, forward_row, forward_store_order,
}
use zuvi_web.Orders.Lines.{mark_order_items_rejected}
use zuvi_web.Orders.Cancellation.{reject_row}
use zuvi_web.Orders.Lifecycle.{some_row, IsConsistent}
use zuvi_web.Orders.Lifecycle.Rows.{some_row-replace, some_row-found, replace-apart}
use zuvi_web.Orders.Lifecycle.Sweep.{saved}
use zuvi_web.Orders.Lifecycle.Moves.{parts-chargeable}
use zuvi_web.Orders.Lifecycle.Synced.{
  IsCountable, sync-IsConsistent, sync-keeps, completed-calculated,
}

-- A row that was open takes a status that is not COMPLETED.
pub saved-IsCountable :
    (pk : ℕ) (o : Order) (so : StoreOrder) (t : StoreOrderStatus) (rows : List StoreOrder)
    → find (λ (r : StoreOrder). r.pk == pk) rows ≡ some so
    → unfinished so.status ≡ true
    → is_completed t ≡ false
    → IsConsistent o rows
    → IsCountable o (replace_store_order (saved so t) rows)
unfolding non_chargeable
saved-IsCountable pk o so t rows found open_before still v =
    let opened : some_row unfinished rows ≡ true =
      some_row-found unfinished so pk rows found open_before in
    let charged : some_row chargeable rows ≡ true =
      parts-chargeable rows ∙ ground (arith, opened) in
    record {
      apart = replace-apart (saved so t) rows v.apart;
      collected = λ e. ground (arith, v.delivered (v.collected e), opened);
      released = λ e. ground (arith, v.closed e, charged);
      together = λ d.
          let before : some_row is_completed rows ≡ true =
            ground (arith, some_row-replace is_completed (saved so t) rows d, still) in
          ground (arith, v.delivered (v.fulfilled before), opened);
    }

-- Without a change of the rows, where one is cancelled or rejected.
pub consistent-IsCountable :
    (o : Order) (rows : List StoreOrder)
    → some_row (λ s. not (chargeable s)) rows ≡ true
    → IsConsistent o rows
    → IsCountable o rows
consistent-IsCountable o rows n v = record {
  apart = v.apart;
  collected = λ e.
      let open_rows = v.delivered (v.collected e) in
      elim (Bool-cases (some_row is_completed rows)) [
        | inl d ↦ completed-calculated rows d open_rows
        | inr d ↦
            let gone = v.emptied (parts-chargeable rows ∙ ground (arith, d, open_rows)) n in
            ground (arith, gone, v.collected e)
      ];
  released = v.released;
  together = λ d. v.delivered (v.fulfilled d);
}

pub action-unfinished :
    (a : ForwardAction) (so : StoreOrder)
    → not (same_store_order_status so.status (source_status a)) ≡ false
    → (unfinished so.status ≡ true) × (is_completed (target_status a) ≡ false)
unfolding source_status target_status non_chargeable
action-unfinished a so h = ground arith

pub reject_row-again :
    (c : Call) (given : Text) (so : StoreOrder) (items : List OrderItem) (g : OrderGraph)
    → is_rejected_status so.status ≡ true
    → reject_row c given so items g ≡ g
unfolding reject_row
reject_row-again c given so items g e = rw e refl

pub reject_row-first :
    (c : Call) (given : Text) (so : StoreOrder) (items : List OrderItem) (g : OrderGraph)
    → is_rejected_status so.status ≡ false
    → ((reject_row c given so items g).order ≡ g.order)
      × ((reject_row c given so items g).store_orders
          ≡ replace_store_order (saved so StoreOrderStatus.rejected) g.store_orders)
unfolding reject_row mark_order_items_rejected
reject_row-first c given so items g e = rw e (refl, refl)

pub saved-rejected :
    (so : StoreOrder)
    → is_rejected_status so.status ≡ true
    → saved so StoreOrderStatus.rejected ≡ so
saved-rejected so e =
    let same : so.status ≡ StoreOrderStatus.rejected = ground arith in ap (saved so) (sym same)

pub rejected-closed :
    (so : StoreOrder) → is_rejected_status so.status ≡ true → not (chargeable so.status) ≡ true
unfolding non_chargeable
rejected-closed so e = ground arith

pub rejectable-unfinished :
    (so : StoreOrder)
    → validate_store_order_rejection so ≡ ok tt
    → is_rejected_status so.status ≡ false
    → unfinished so.status ≡ true
unfolding validate_store_order_rejection store_rejectable non_chargeable running
rejectable-unfinished so h e = ground arith

pub forward_store_order-IsConsistent :
    (c : Call) (given : Text) (a : ForwardAction) (pk : ℕ) (so : StoreOrder) (g : OrderGraph)
    {r : Unit {0} × OrderGraph}
    → find (λ (r : StoreOrder). r.pk == pk) g.store_orders ≡ some so
    → forward_store_order c given a so g ≡ ok r
    → IsConsistent g.order g.store_orders
    → IsConsistent r.1.order r.1.store_orders
unfolding forward_store_order forward_row
forward_store_order-IsConsistent c given a pk so g found h v =
    let (fits, h₁) =
      raise_if-eq-ok (not (same_store_order_status so.status (source_status a))) (validation status)
        _ g h in
    let (opened, still) = action-unfinished a so fits in
    let k = forward_row c given a so g in
    let h₂ = ran tt k _ h₁ in
    let why = forward_reason given a so in
    let v' : IsCountable k.order k.store_orders =
      saved-IsCountable pk g.order so (target_status a) g.store_orders found opened still v in
    subst (λ (q : OrderGraph). IsConsistent q.order q.store_orders)
      (sym (modified (sync_order_status_from_store_orders c none why) k h₂))
      (subst (IsConsistent (sync_order_status_from_store_orders c none why k).order)
        (sym (sync-keeps c none why k)) (sync-IsConsistent c none why k v'))
