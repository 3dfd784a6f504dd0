-- ===== src/Impact.antt =====
-- The impact analysis of src/kernel/impact.ts: which files a change may concern.
pub mod Types
pub mod Items
pub mod Search
pub mod Ends
pub mod Reach
pub mod Layers
pub mod Expand
pub mod Turns
pub mod Complete
mod Tests
