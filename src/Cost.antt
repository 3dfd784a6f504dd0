-- ===== src/Cost.antt =====
-- The cost governor: src/kernel/cost-governor.ts with its records (src/kernel/cost-types.ts) and
-- its store (src/kernel/cost-persist.ts).
pub mod Types
pub mod Ledger
pub mod Budget
pub mod Accounting
pub mod Counting
pub mod Enforcement
mod Tests
