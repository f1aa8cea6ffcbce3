-- ===== src/Orders/Lifecycle/Stores.antt =====
-- The store's moves, orders/store_status.py and orders/cancellation.py, keep an order consistent.
use zuvi_web.Prelude.{
  ℕ, ◌≡◌, refl, sym, ap, ◌∙◌, subst, true, not, Option, none, some, List, ◌++◌, select, find, ◌==◌,
  inl, inr, Bool-cases,
}
use zuvi_web.Prelude.Text.{Text, text, strip, is_empty}
use zuvi_web.Prelude.Effect.{
  ok, ran, lift-eq-ok, check-eq-ok, raise_if-eq-ok, or_raise-eq-ok, and_then-eq-ok, modified,
  permission_denied, validation, reason, store, action, store_order, does_not_exist,
}
use zuvi_web.Stores.{Store, store_allows_portal_access}
use zuvi_web.Orders.Model.{
  StoreOrderStatus, Order, StoreOrder, OrderItem, OrderGraph, Call, replace_store_order,
}
use zuvi_web.Orders.Status.{is_rejected_status, validate_store_order_rejection}
use zuvi_web.Orders.Sync.{sync_order_status_from_store_orders}
use zuvi_web.Orders.Sync.Rules.{chargeable}
use zuvi_web.Orders.StoreStatus.{
  StoreAction, forward, reject, perform, read_store_action, transition_store_order,
}
use zuvi_web.Orders.Lines.{mark_order_items_rejected, restore_order_items_stock}
use zuvi_web.Orders.Cancellation.{
  require_reason, reject_row, payable_totals, recalculate_order_payable_totals, reject_store_order,
}
use zuvi_web.Orders.Cancellation.Effects.{restore_order_items_stock-Keeps}
use zuvi_web.Orders.Lifecycle.{some_row, IsConsistent}
use zuvi_web.Orders.Lifecycle.Rows.{some_row-found, replace_found}
use zuvi_web.Orders.Lifecycle.Sweep.{saved}
use zuvi_web.Orders.Lifecycle.Synced.{IsCountable, sync-IsConsistent, sync-keeps}
use zuvi_web.Orders.Lifecycle.Closing.{payable-IsConsistent}
use zuvi_web.Orders.Lifecycle.StoreRows.{
  saved-IsCountable, consistent-IsCountable, reject_row-again, reject_row-first, saved-rejected,
  rejected-closed, rejectable-unfinished, forward_store_order-IsConsistent,
}

-- The row of a rejection, and the table after it.
reject_row-rows :
    (c : Call) (given : Text) (pk : ℕ) (so : StoreOrder) (items : List OrderItem) (g : OrderGraph)
    → find (λ (r : StoreOrder). r.pk == pk) g.store_orders ≡ some so
    → validate_store_order_rejection so ≡ ok tt
    → IsConsistent g.order g.store_orders
    → let rows = replace_store_order (saved so StoreOrderStatus.rejected) g.store_orders in
      ((reject_row c given so items g).order ≡ g.order)
      × ((reject_row c given so items g).store_orders ≡ rows)
      × IsCountable g.order rows
reject_row-rows c given pk so items g found valid v =
    elim (Bool-cases (is_rejected_status so.status)) [
      | inl e ↦
          let stays = reject_row-again c given so items g e in
          let rows : replace_store_order (saved so StoreOrderStatus.rejected) g.store_orders
              ≡ g.store_orders =
            ap (λ (x : StoreOrder). replace_store_order x g.store_orders) (saved-rejected so e)
            ∙ replace_found pk so g.store_orders v.apart found in
          let n : some_row (λ s. not (chargeable s)) g.store_orders ≡ true =
            some_row-found (λ s. not (chargeable s)) so pk g.store_orders found
              (rejected-closed so e) in
          (
            ap (λ (k : OrderGraph). k.order) stays,
            ap (λ (k : OrderGraph). k.store_orders) stays ∙ sym rows,
            subst (IsCountable g.order) (sym rows)
                (consistent-IsCountable g.order g.store_orders n v),
          )
      | inr e ↦
          let (order, rows) = reject_row-first c given so items g e in
          (
            order,
            rows,
            saved-IsCountable pk g.order so StoreOrderStatus.rejected g.store_orders found
                (rejectable-unfinished so valid e) refl v,
          )
    ]

reject_store_order-IsConsistent :
    (c : Call) (pk caller : ℕ) (given : Text) (g : OrderGraph) {r : Unit {0} × OrderGraph}
    → reject_store_order c pk caller given g ≡ ok r
    → IsConsistent g.order g.store_orders
    → IsConsistent r.1.order r.1.store_orders
unfolding reject_store_order mark_order_items_rejected recalculate_order_payable_totals
reject_store_order-IsConsistent c pk caller given g h v =
    let h₁ = ran g g _ h in
    let (so, found, h₂) =
      or_raise-eq-ok (validation store_order) (find (λ (r : StoreOrder). r.pk == pk) g.store_orders)
        _ g h₁ in
    let (own, h₃) = raise_if-eq-ok (not (so.store == caller)) permission_denied _ g h₂ in
    let (why, fine, h₄) = lift-eq-ok (require_reason given) _ g h₃ in
    let (valid, h₅) = check-eq-ok (validate_store_order_rejection so) _ g h₄ in
    let items = select (λ (i : OrderItem). i.store_order == so.pk) g.order_items in
    let rows = replace_store_order (saved so StoreOrderStatus.rejected) g.store_orders in
    let k₀ = reject_row c why so items g in
    let (order, table, countable) = reject_row-rows c why pk so items g found valid v in
    let h₆ = ran tt k₀ _ h₅ in
    let note = text "Store rejection of " ++ (so.store_order_number ++ (text ": " ++ why)) in
    let (u, k₁, e₁, h₇) = and_then-eq-ok (restore_order_items_stock c note items k₀) _ h₆ in
    let kept = (restore_order_items_stock-Keeps c note items k₀ e₁).0 in
    let k₂ = mark_order_items_rejected c.now items k₁ in
    let h₈ = ran tt k₂ _ h₇ in
    let message = text "Store order rejected: " ++ why in
    let k₃ = sync_order_status_from_store_orders c (some rows) message k₂ in
    let h₉ = ran tt k₃ _ h₈ in
    let countable' : IsCountable k₂.order rows =
      subst (λ (o : Order). IsCountable o rows) (sym (kept.order ∙ order)) countable in
    let table' : k₃.store_orders ≡ rows =
      sync-keeps c (some rows) message k₂ ∙ kept.store_orders ∙ table in
    let v₃ : IsConsistent k₃.order rows = sync-IsConsistent c (some rows) message k₂ countable' in
    let v₄ : IsConsistent (payable_totals rows k₃.order) k₃.store_orders =
      subst (IsConsistent (payable_totals rows k₃.order)) (sym table')
        (payable-IsConsistent k₃.order rows rows v₃) in
    subst (λ (q : OrderGraph). IsConsistent q.order q.store_orders)
      (sym (modified (recalculate_order_payable_totals rows) k₃ h₉)) v₄

perform-IsConsistent :
    (c : Call) (pk caller : ℕ) (given : Text) (so : StoreOrder) (a : StoreAction) (g : OrderGraph)
    {r : Unit {0} × OrderGraph}
    → find (λ (r : StoreOrder). r.pk == pk) g.store_orders ≡ some so
    → perform c pk caller given so a g ≡ ok r
    → IsConsistent g.order g.store_orders
    → IsConsistent r.1.order r.1.store_orders
unfolding perform
perform-IsConsistent c pk caller given so reject g found h v =
    let (reasoned, h₁) = raise_if-eq-ok (is_empty (strip given)) (validation reason) _ g h in
    reject_store_order-IsConsistent c pk caller (strip given) g h₁ v
perform-IsConsistent c pk caller given so (forward a) g found h v =
    forward_store_order-IsConsistent c given a pk so g found h v

-- A store's move keeps the order consistent.
pub transition_store_order-IsConsistent :
    (c : Call) (caller : Option Store) (pk : ℕ) (key given : Text) (g : OrderGraph)
    {r : Unit {0} × OrderGraph}
    → transition_store_order c caller pk key given g ≡ ok r
    → IsConsistent g.order g.store_orders
    → IsConsistent r.1.order r.1.store_orders
unfolding transition_store_order
transition_store_order-IsConsistent c none pk key given g h v = cc
transition_store_order-IsConsistent c (some caller) pk key given g h v =
    let (open_store, h₁) =
      raise_if-eq-ok (not (store_allows_portal_access (some caller))) (validation store) _ g h in
    let h₂ = ran g g _ h₁ in
    let (so, found, h₃) =
      or_raise-eq-ok does_not_exist (find (λ (r : StoreOrder). r.pk == pk) g.store_orders) _ g h₂ in
    let (own, h₄) = raise_if-eq-ok (not (so.store == caller.pk)) permission_denied _ g h₃ in
    let (a, named, h₅) = or_raise-eq-ok (validation action) (read_store_action key) _ g h₄ in
    perform-IsConsistent c pk caller.pk given so a g found h₅ v
