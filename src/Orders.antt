-- ===== src/Orders.antt =====
-- The orders application.
pub mod Model
pub mod Numbers
pub mod Validation
pub mod Checkout
pub mod Status
pub mod Sync
pub mod Transitions
pub mod Management
pub mod Lines
pub mod Cancellation
pub mod StoreStatus
pub mod Lifecycle
pub mod Tests
