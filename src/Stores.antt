-- ===== src/Stores.antt =====
-- stores/status.py: the life of a store, and who may use the portal.
pub mod Permissions
mod Tests
use zuvi_web.Prelude.{Bool, true, false, not, ◌&&◌, Option, none, some, if◌then◌else◌, ℕ, ◌==◌}
use zuvi_web.Prelude.Text.{Text, text, strip, is_empty}
use zuvi_web.Prelude.Effect.{Result, ok, raise_when, validation, status, reason}

pub data StoreStatus : Type 0 where
  pending active suspended rejected : StoreStatus

-- The columns that the status rules read.
pub record Store : Type 0 where
  pub pk : ℕ
  pub name : Text
  pub store_code : Text
  pub status : StoreStatus
  pub is_active : Bool

abbrev store_status_index : StoreStatus → ℕ
store_status_index StoreStatus.pending = 0
store_status_index StoreStatus.active = 1
store_status_index StoreStatus.suspended = 2
store_status_index StoreStatus.rejected = 3

abbrev pub same_store_status : StoreStatus → StoreStatus → Bool
same_store_status a b = store_status_index a == store_status_index b

-- Membership in `allowed_next_statuses(current)`.
unfoldable pub allowed_next_status : StoreStatus → StoreStatus → Bool
allowed_next_status StoreStatus.pending StoreStatus.active = true
allowed_next_status StoreStatus.pending StoreStatus.rejected = true
allowed_next_status StoreStatus.rejected StoreStatus.pending = true
allowed_next_status StoreStatus.active StoreStatus.suspended = true
allowed_next_status StoreStatus.suspended StoreStatus.active = true
allowed_next_status _ _ = false

unfoldable pub is_transition_allowed : StoreStatus → StoreStatus → Bool
unfolding allowed_next_status
is_transition_allowed current new =
    not (same_store_status current new) && allowed_next_status current new

unfoldable pub permission_for_transition : StoreStatus → StoreStatus → Option Text
permission_for_transition current new =
    if is_transition_allowed current new
    then if same_store_status new StoreStatus.suspended
      then some (text "stores.suspend_store")
      else some (text "stores.approve_store")
    else none

unfoldable pub reason_required_for : StoreStatus → Bool
reason_required_for StoreStatus.rejected = true
reason_required_for StoreStatus.suspended = true
reason_required_for _ = false

unfoldable pub validate_status_transition : (current new : StoreStatus) → Text → Result (Unit {0})
validate_status_transition current new given =
    raise_when (same_store_status current new) (validation status) (
      raise_when (not (is_transition_allowed current new)) (validation status) (
        raise_when (reason_required_for new && is_empty (strip given)) (validation reason) (ok tt)))

unfoldable pub store_allows_portal_access : Option Store → Bool
store_allows_portal_access none = false
store_allows_portal_access (some s) = s.is_active && same_store_status s.status StoreStatus.active
