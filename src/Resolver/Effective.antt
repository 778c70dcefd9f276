-- ===== src/Resolver/Effective.antt =====
-- crates/jman-resolver/src/effective.rs: the effective model of a POM. `Interpolation` holds the
-- property expressions, `Collection` the dependency lists by key, `Management` what a managed
-- dependency gives to another, `Build` the construction of a model with its parents and imports.
pub mod Interpolation
pub mod Collection
pub mod Management
pub mod Build
