-- ===== src/Config.antt =====
-- crates/jman-config: the validation of manifests and lockfiles.
pub mod Error
pub mod Names
pub mod Generators
pub mod Java
pub mod Dates
pub mod Audit
pub mod Lockfile
pub mod Scripts
