-- ===== src/Kernel.antt =====
-- The kernel's components: src/kernel/.
pub mod Types
pub mod Ids
pub mod Execution
pub mod Policy
mod Tests
