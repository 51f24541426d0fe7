-- ===== src/Watch.antt =====
-- `WatchState` of src/framework/watch-state.ts: what a watch session keeps of the health checks.
pub mod Data
pub mod Patterns
pub mod Card
pub mod Invariant
pub mod Transitions
pub mod Sequences
pub mod Runs
pub use Data.*
