-- ===== src/Gates.antt =====
-- The quality gates: src/kernel/gates.ts, the reuse classes of src/kernel/cache-policy.ts, and the
-- gate states that src/kernel/execution.ts derives from evidence and reviews.
pub mod Registry
pub mod Reuse
pub mod Records
pub mod Evidence
pub mod States
pub mod Current
pub mod Settled
pub mod Verdicts
pub mod Reviews
mod Tests
