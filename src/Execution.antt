-- ===== src/Execution.antt =====
-- The run of a work order: src/kernel/execution.ts over the files of src/kernel/execution-persist.ts
-- and src/kernel/persist.ts.
pub mod Store
pub mod Sanitize
pub mod SanitizePlan
pub mod Persist
pub mod Run
pub mod Verify
pub mod Contract
pub mod Record
pub mod Assure
pub mod Reviewer
pub mod Review
pub mod Finalize
pub mod Expand
pub mod Logic
pub mod Lifecycle
pub mod Valid
pub mod Steps
pub mod Frames
pub mod Commands
pub mod Held
pub mod Kept
pub mod Moves
pub mod Blockers
pub mod Closing
pub mod Reading
pub mod Returns
pub mod Distinct
pub mod Recordable
pub mod Proven
pub mod Ready
pub mod Completed
pub mod Hindrances
pub mod Checks
pub mod Hindered
pub mod Refused
pub mod Refinement
mod Samples
mod Tests
