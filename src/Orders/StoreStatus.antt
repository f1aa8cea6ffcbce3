-- ===== src/Orders/StoreStatus.antt =====
-- orders/store_status.py: a store moves its own store orders forward, or rejects them.
pub mod Available
use zuvi_web.Prelude.{
  ℕ, ◌+◌, leb, not, ◌&&◌, Option, none, some, List, [], ◌∷◌, ◌++◌, find, ◌==◌, if◌then◌else◌,
}
use zuvi_web.Prelude.Text.{Text, text, text_eq, strip, is_empty, or_else}
use zuvi_web.Prelude.Effect.{
  validation, store, reason, action, status, permission_denied, does_not_exist, Action, get, modify,
  raise_if, raise, or_raise, ◌>>=◌, ◌>>◌,
}
use zuvi_web.Stores.{Store, store_allows_portal_access}
use zuvi_web.Orders.Model.{
  StoreOrderStatus, StoreOrder, OrderGraph, Call, client_ip, put_store_order,
  add_store_status_history, same_store_order_status,
}
use zuvi_web.Orders.Cancellation.{reject_store_order}
use zuvi_web.Orders.Sync.{sync_order_status_from_store_orders}

pub data ForwardAction : Type 0 where
  accept processing ready : ForwardAction

-- `STORE_ORDER_FORWARD_TRANSITIONS`: the one status that an action starts from, and its target.
unfoldable pub source_status : ForwardAction → StoreOrderStatus
source_status accept = StoreOrderStatus.pending
source_status processing = StoreOrderStatus.accepted
source_status ready = StoreOrderStatus.preparing

unfoldable pub target_status : ForwardAction → StoreOrderStatus
target_status accept = StoreOrderStatus.accepted
target_status processing = StoreOrderStatus.preparing
target_status ready = StoreOrderStatus.ready

abbrev store_order_status_value : StoreOrderStatus → Text
store_order_status_value StoreOrderStatus.pending = text "PENDING"
store_order_status_value StoreOrderStatus.accepted = text "ACCEPTED"
store_order_status_value StoreOrderStatus.preparing = text "PREPARING"
store_order_status_value StoreOrderStatus.ready = text "READY"
store_order_status_value StoreOrderStatus.out_for_delivery = text "OUT_FOR_DELIVERY"
store_order_status_value StoreOrderStatus.ready_for_pickup = text "READY_FOR_PICKUP"
store_order_status_value StoreOrderStatus.completed = text "COMPLETED"
store_order_status_value StoreOrderStatus.cancelled = text "CANCELLED"
store_order_status_value StoreOrderStatus.rejected = text "REJECTED"

pub data StoreAction : Type 0 where
  forward : ForwardAction → StoreAction
  reject : StoreAction

-- `available_store_order_actions(store_order)`.
unfoldable pub available_store_order_actions : StoreOrder → List StoreAction
available_store_order_actions so = elim so.status [
  | StoreOrderStatus.pending ↦ forward accept ∷ reject ∷ []
  | StoreOrderStatus.accepted ↦ forward processing ∷ []
  | StoreOrderStatus.preparing ↦ forward ready ∷ []
  | _ ↦ []
]

-- The row and its history.
unfoldable pub forward_row : Call → Text → ForwardAction → StoreOrder → OrderGraph → OrderGraph
forward_row c given a so g =
    add_store_status_history
      record {
        store_order = so.pk;
        old_status = so.status;
        new_status = target_status a;
        changed_by = c.actor;
        reason = strip given;
        ip_address = client_ip c.request;
      }
      (put_store_order (record so { status = target_status a }) g)

-- The reason that the order's own history is given.
unfoldable pub forward_reason : Text → ForwardAction → StoreOrder → Text
forward_reason given a so = or_else (strip given) (
    text "Store order "
    ++ (so.store_order_number
        ++ (text " "
            ++ (store_order_status_value so.status
                ++ (text " → " ++ store_order_status_value (target_status a))))))

unfoldable pub forward_store_order :
    Call → Text → ForwardAction → StoreOrder → Action OrderGraph (Unit {0})
forward_store_order c given a so = do
  raise_if (not (same_store_order_status so.status (source_status a))) (validation status)
  modify (forward_row c given a so)
  modify (sync_order_status_from_store_orders c none (forward_reason given a so))

unfoldable pub perform :
    Call → (pk store : ℕ) → Text → StoreOrder → StoreAction → Action OrderGraph (Unit {0})
perform c pk caller given so reject = do
  raise_if (is_empty (strip given)) (validation reason)
  reject_store_order c pk caller (strip given)
perform c pk caller given so (forward a) = forward_store_order c given a so

-- `str.lower`, on the letters that the action keys are made of.
abbrev lower : Text → Text
lower [] = []
lower (c ∷ s) = (if leb 65 c && leb c 90 then c + 32 else c) ∷ lower s

unfoldable pub read_store_action : Text → Option StoreAction
read_store_action key =
    let cleaned = lower (strip key) in
    if text_eq cleaned (text "reject")
    then some reject
    else if text_eq cleaned (text "accept")
    then some (forward accept)
    else if text_eq cleaned (text "processing")
    then some (forward processing)
    else if text_eq cleaned (text "ready")
    then some (forward ready)
    else none

unfoldable pub transition_store_order :
    Call → Option Store → (pk : ℕ) → (action reason : Text) → Action OrderGraph (Unit {0})
transition_store_order c none pk key given = raise (validation store)
transition_store_order c (some caller) pk key given = do
  raise_if (not (store_allows_portal_access (some caller))) (validation store)
  g ← get
  so ← or_raise does_not_exist (find (λ (so : StoreOrder). so.pk == pk) g.store_orders)
  raise_if (not (so.store == caller.pk)) permission_denied
  a ← or_raise (validation action) (read_store_action key)
  perform c pk caller.pk given so a
