-- ===== src/Model/Requirements.antt =====
-- src/kernel/model-requirements.ts: what a work order demands of a model.
pub mod Floors
pub mod Derive
pub mod Escalation
