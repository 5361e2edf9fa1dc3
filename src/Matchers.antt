-- ===== src/Matchers.antt =====
-- src/matchers/mod.rs: identifiers and their extractors, conditions, and the rule matcher.
pub mod IpRanges
pub mod Context
pub mod Conditions
pub mod Rules
pub mod Extractors
pub mod Configured
mod Tests
