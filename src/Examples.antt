-- ===== src/Examples.antt =====
-- A concrete plan, its journals and its resources, on which the theorems are applied.
pub mod Data
pub mod Ownership
pub mod Journal
pub mod Rollback
pub mod Cleanup
pub mod Replacement
pub mod Environment
pub mod Scheduling
pub mod Verification
pub mod Versions
