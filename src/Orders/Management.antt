-- ===== src/Orders/Management.antt =====
-- orders/management_status.py: the moves of an order's status and of its payment that the management
-- portal makes, forward and in correction.
pub mod Available
use zuvi_web.Prelude.{
  ℕ, Bool, true, false, not, ◌&&◌, ◌||◌, Option, none, some, List, [], ◌∷◌, ◌++◌, any, select,
  find_last, ◌==◌, if◌then◌else◌,
}
use zuvi_web.Prelude.Text.{Text, text, text_eq, strip, is_empty, or_else}
use zuvi_web.Prelude.Effect.{
  Result, ok, err, raise_when, validation, status, payment_status, correction_note, Action, pure,
  get, modify, lift, raise_if, raise, ◌>>=◌, ◌>>◌,
}
use zuvi_web.Orders.Model.{
  PaymentStatus, OrderStatus, StoreOrderStatus, Order, StoreOrder, OrderStatusHistory,
  OrderPaymentHistory, StoreOrderStatusHistory, OrderGraph, Call, client_ip, put_order,
  put_store_order, add_status_history, add_payment_history, add_store_status_history,
  same_order_status, same_payment_status,
}
use zuvi_web.Orders.Status.{admin_cancellable, non_chargeable}
use zuvi_web.Orders.Sync.{ready_tier, is_completed}
use zuvi_web.Orders.Transitions.{
  order_status_transition, payment_status_transition, is_order_status_reversal,
  is_payment_status_reversal, order_reversal_allowed, completable, active_store_orders,
  available_admin_order_status, admin_can_cancel_order, available_admin_payment_status,
}

-- One row of the cascade of a completion.
unfoldable pub complete_store_order : Call → Text → StoreOrder → OrderGraph → OrderGraph
complete_store_order c reason so g =
    if is_completed so.status
    then g
    else add_store_status_history
        record {
          store_order = so.pk;
          old_status = so.status;
          new_status = StoreOrderStatus.completed;
          changed_by = c.actor;
          reason =
              or_else (strip reason) (
                text "Order " ++ (g.order.order_number ++ text " marked completed by management."));
          ip_address = client_ip c.request;
        }
        (put_store_order (record so { status = StoreOrderStatus.completed }) g)

unfoldable pub complete_store_orders : Call → Text → List StoreOrder → OrderGraph → OrderGraph
complete_store_orders c reason [] g = g
complete_store_orders c reason (so ∷ rows) g =
    complete_store_orders c reason rows (complete_store_order c reason so g)

unfoldable pub complete_active_store_orders : Call → Text → Action OrderGraph (Unit {0})
complete_active_store_orders c reason = do
  g ← get
  let active = active_store_orders g.store_orders
  raise_if (any (λ so. not (completable so.status)) active) (validation status)
  modify (complete_store_orders c reason active)

-- What the order's newest completion was from, or READY.
unfoldable pub status_before_completion : List StoreOrderStatusHistory → ℕ → StoreOrderStatus
status_before_completion history pk =
    elim (find_last (λ h. h.store_order == pk && is_completed h.new_status) history) [
      | none ↦ StoreOrderStatus.ready
      | some h ↦ if ready_tier h.old_status then h.old_status else StoreOrderStatus.ready
    ]

unfoldable pub reopen_store_order : Call → Text → StoreOrder → OrderGraph → OrderGraph
reopen_store_order c note so g =
    let restored_status = status_before_completion g.store_status_history so.pk in
    add_store_status_history
      record {
        store_order = so.pk;
        old_status = StoreOrderStatus.completed;
        new_status = restored_status;
        changed_by = c.actor;
        reason = text "Correction: " ++ note;
        ip_address = client_ip c.request;
      }
      (put_store_order (record so { status = restored_status }) g)

unfoldable pub reopen_store_orders : Call → Text → List StoreOrder → OrderGraph → OrderGraph
reopen_store_orders c note [] g = g
reopen_store_orders c note (so ∷ rows) g =
    reopen_store_orders c note rows (reopen_store_order c note so g)

unfoldable pub reopen_completed_store_orders : Call → Text → OrderGraph → OrderGraph
reopen_completed_store_orders c note g =
    reopen_store_orders c note (select (λ so. is_completed so.status) g.store_orders) g

-- The status that a form names by its value.
abbrev pub order_status_value : OrderStatus → Text
order_status_value OrderStatus.placed = text "PLACED"
order_status_value OrderStatus.confirmed = text "CONFIRMED"
order_status_value OrderStatus.in_progress = text "IN_PROGRESS"
order_status_value OrderStatus.completed = text "COMPLETED"
order_status_value OrderStatus.partially_cancelled = text "PARTIALLY_CANCELLED"
order_status_value OrderStatus.cancelled = text "CANCELLED"

abbrev pub payment_status_value : PaymentStatus → Text
payment_status_value PaymentStatus.pending = text "PENDING"
payment_status_value PaymentStatus.collected = text "COLLECTED"
payment_status_value PaymentStatus.cancelled = text "CANCELLED"

abbrev first_named {ℓ} : {A : Type ℓ} → (A → Text) → Text → List A → Option A
first_named value t [] = none
first_named value t (a ∷ rest) = if text_eq (value a) t then some a else first_named value t rest

unfoldable pub read_order_status : Text → Option OrderStatus
read_order_status t = first_named order_status_value (strip t) (
    OrderStatus.placed ∷ OrderStatus.confirmed ∷ OrderStatus.in_progress ∷ OrderStatus.completed
    ∷ OrderStatus.partially_cancelled ∷ OrderStatus.cancelled ∷ [])

unfoldable pub read_payment_status : Text → Option PaymentStatus
read_payment_status t =
    first_named payment_status_value (strip t)
      (PaymentStatus.pending ∷ PaymentStatus.collected ∷ PaymentStatus.cancelled ∷ [])

-- The guards of a reversal, and of a forward move.
unfoldable pub check_order_move : Order → OrderStatus → Text → Result (Unit {0})
check_order_move o new note =
    if is_order_status_reversal o new
    then raise_when (is_empty note) (validation correction_note)
        (raise_when (not (order_reversal_allowed o new)) (validation status) (ok tt))
    else raise_when (not (order_status_transition o.status new)) (validation status) (ok tt)

-- The cascade to the store orders.
unfoldable pub cascade : Call → Text → Text → Bool → OrderStatus → Action OrderGraph (Unit {0})
cascade c reason note true new = modify (reopen_completed_store_orders c note)
cascade c reason note false OrderStatus.completed = complete_active_store_orders c reason
cascade c reason note false new = pure tt

abbrev pub moved_order : ℕ → Bool → OrderStatus → Order → Order
moved_order now true new o = record o { status = new; delivered_at = none }
moved_order now false OrderStatus.completed o = record o {
  status = OrderStatus.completed;
  delivered_at = some now;
}
moved_order now false new o = record o { status = new }

abbrev pub status_entry : Call → Text → Text → Bool → (old new : OrderStatus) → OrderStatusHistory
status_entry c reason note is_reversal old new = record {
  old_status = old;
  new_status = new;
  changed_by = c.actor;
  reason = strip reason;
  correction_note = if is_reversal then note else [];
  ip_address = client_ip c.request;
}

unfoldable pub move_order : Call → Text → Text → OrderStatus → Action OrderGraph (Unit {0})
move_order c reason note new = do
  g ← get
  lift (check_order_move g.order new note)
  let is_reversal = is_order_status_reversal g.order new
  cascade c reason note is_reversal new
  modify (put_order (moved_order c.now is_reversal new g.order))
  modify (add_status_history (status_entry c reason note is_reversal g.order.status new))

unfoldable pub change_order : Call → Text → Text → OrderStatus → Action OrderGraph (Unit {0})
change_order c reason note new = do
  g ← get
  if same_order_status new g.order.status then pure tt else move_order c reason note new

-- A name that no status has is in no table, and gets the error of a move that is not allowed.
unfoldable pub change_order_to :
    Call → Text → Text → Option OrderStatus → Action OrderGraph (Unit {0})
change_order_to c reason note none = raise (validation status)
change_order_to c reason note (some OrderStatus.cancelled) = raise (validation status)
change_order_to c reason note (some new) = change_order c reason note new

unfoldable pub update_order_status :
    Call → (new_status reason note : Text) → Action OrderGraph (Unit {0})
update_order_status c new_status reason note =
    change_order_to c reason (strip note) (read_order_status new_status)

unfoldable pub check_payment_move : Order → PaymentStatus → Text → Result (Unit {0})
check_payment_move o new note =
    raise_when (is_payment_status_reversal o new && is_empty note) (validation correction_note) (
      raise_when
        (same_payment_status new PaymentStatus.collected
          && not (same_order_status o.status OrderStatus.completed))
        (validation payment_status)
        (raise_when
          (not (payment_status_transition o.payment_status new || is_payment_status_reversal o new))
          (validation payment_status) (ok tt)))

abbrev pub moved_payment : ℕ → PaymentStatus → Order → Order
moved_payment now PaymentStatus.collected o = record o {
  payment_status = PaymentStatus.collected;
  payment_collected_at = some now;
}
moved_payment now new o = record o {
  payment_status = new;
  payment_collected_at =
      if same_payment_status o.payment_status PaymentStatus.collected
      then none
      else o.payment_collected_at;
}

abbrev pub payment_entry : Call → Text → Text → Order → PaymentStatus → OrderPaymentHistory
payment_entry c reason note o new = record {
  old_payment_status = o.payment_status;
  new_payment_status = new;
  changed_by = c.actor;
  reason = strip reason;
  correction_note = if is_payment_status_reversal o new then note else [];
  ip_address = client_ip c.request;
}

unfoldable pub move_payment : Call → Text → Text → PaymentStatus → Action OrderGraph (Unit {0})
move_payment c reason note new = do
  g ← get
  lift (check_payment_move g.order new note)
  modify (put_order (moved_payment c.now new g.order))
  modify (add_payment_history (payment_entry c reason note g.order new))

unfoldable pub change_payment : Call → Text → Text → PaymentStatus → Action OrderGraph (Unit {0})
change_payment c reason note new = do
  g ← get
  if same_payment_status new g.order.payment_status then pure tt else move_payment c reason note new

unfoldable pub change_payment_to :
    Call → Text → Text → Option PaymentStatus → Action OrderGraph (Unit {0})
change_payment_to c reason note none = raise (validation payment_status)
change_payment_to c reason note (some new) = change_payment c reason note new

unfoldable pub update_order_payment_status :
    Call → (new_payment_status reason note : Text) → Action OrderGraph (Unit {0})
update_order_payment_status c new_payment_status reason note =
    change_payment_to c reason (strip note) (read_payment_status new_payment_status)
