-- ===== src/Providers.antt =====
-- src/framework/provider-registry.ts: which provider serves each capability that a step needs.
pub mod Resolve
pub mod Correct
