-- ===== src/Examples.antt =====
-- The theorems at work on a small recovery of a primary database.
pub mod Data
pub mod Plans
pub mod Runs
pub mod Graphs
pub mod Watches
pub mod Catalogs
pub mod Environments
pub mod Bundles
