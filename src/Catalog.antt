-- ===== src/Catalog.antt =====
-- src/framework/catalog.ts: the match of a plan with the standing approvals.
pub mod Entry
pub mod Operations
pub mod Criteria
pub mod Match
pub mod Depth
pub mod Flat
pub mod Patterns
pub mod Approves
pub mod Safety
pub use Entry.*
