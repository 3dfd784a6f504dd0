-- ===== src/Model.antt =====
-- Model routing: src/kernel/model-types.ts, model-requirements.ts, model-runtime.ts and
-- model-router.ts.
pub mod Types
pub mod Requirements
pub mod Runtime
pub mod Router
mod Tests
