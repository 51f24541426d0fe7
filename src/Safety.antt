-- ===== src/Safety.antt =====
-- src/framework/safety.ts: the captures that the legacy engine takes, and the blast radius check.
pub mod Capture
pub mod Normalize
pub mod BlastRadius
pub mod Parts
pub mod References
pub mod Represented
