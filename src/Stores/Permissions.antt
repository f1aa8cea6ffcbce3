-- ===== src/Stores/Permissions.antt =====
-- The life of a store as a step relation, and the permission for each step, stores/status.py.
use zuvi_web.Prelude.Text.{Text, text, IsWritten}
use zuvi_web.Stores.{StoreStatus}

-- The steps in the life of a store, with the reason that is given.
pub data StoreStep (given : Text) : StoreStatus → StoreStatus → Type 0 where
  approves : StoreStep given StoreStatus.pending StoreStatus.active
  rejects : IsWritten given → StoreStep given StoreStatus.pending StoreStatus.rejected
  reopens : StoreStep given StoreStatus.rejected StoreStatus.pending
  suspends : IsWritten given → StoreStep given StoreStatus.active StoreStatus.suspended
  reactivates : StoreStep given StoreStatus.suspended StoreStatus.active

-- The permission that a step wants.
abbrev pub permission_of :
    {given : Text} {current new : StoreStatus} → StoreStep given current new → Text
permission_of approves = text "stores.approve_store"
permission_of (rejects _) = text "stores.approve_store"
permission_of reopens = text "stores.approve_store"
permission_of (suspends _) = text "stores.suspend_store"
permission_of reactivates = text "stores.approve_store"
