-- ===== src/Model/Router.antt =====
-- src/kernel/model-router.ts: which profile runs a work order.
pub mod Compare
pub mod Reject
pub mod Plan
pub mod Route
pub mod Adequate
pub mod Choice
pub mod Selection
pub mod Safety
