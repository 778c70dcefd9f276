-- ===== src/Audit.antt =====
-- crates/jman-audit: the audit of packages.
pub mod Model
pub mod Cache
