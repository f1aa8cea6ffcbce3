-- ===== src/Inventory.antt =====
-- The stock ledger, inventory/models.py and inventory/services.py.
pub mod Model
pub mod Movement
pub mod Ledger
pub mod Conservation
pub mod OrderStock
pub mod Records
pub mod Tests
