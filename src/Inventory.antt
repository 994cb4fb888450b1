-- ===== src/Inventory.antt =====
-- backend/base.py: observed inventories, and when one satisfies a plan.
pub mod Types
pub mod Equality
pub mod Expected
pub mod Match
pub mod Links
pub mod Whole
