-- ===== src/Validator.antt =====
-- The plan validator, src/framework/validator.ts.
pub mod Checks
pub mod Meaning
pub mod Steps
pub mod Conditions
pub mod Accepted
pub mod Safe
