-- ===== src/Plan.antt =====
-- internal/plan: resolved plans, preparation transactions and shared-resource ownership.
pub mod Reference
pub mod Operation
pub mod Resource
pub mod Ownership
pub mod Preparation
pub mod Journal
pub mod Cleanup
pub mod Replacement
pub mod Environment
pub mod Digest
pub mod Identity
pub mod Recovery
pub mod Observation
pub mod Verification
