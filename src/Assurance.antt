-- ===== src/Assurance.antt =====
-- The assurance policy: src/kernel/assurance-policy.ts.
pub mod Types
pub mod Roles
pub mod Binding
pub mod Selection
pub mod Reviews
pub mod Policy
pub mod Sound
pub mod Apart
pub mod Approvals
pub mod Finalize
pub mod Silent
pub mod Samples
mod Tests
