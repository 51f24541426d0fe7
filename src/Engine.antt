-- ===== src/Engine.antt =====
-- The sequential engine, `LegacyExecutionEngine` of src/framework/engine.ts.
pub mod Effects
pub mod State
pub mod Action
pub mod Steps
pub mod Run
pub mod Logic
pub mod Trace
pub mod Allowed
pub mod DryRun
pub mod Approvals
pub mod Await
pub mod Captures
pub mod FastReplan
pub mod Follows
pub mod Finishing
pub mod Fuel
pub mod Termination
