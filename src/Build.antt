-- ===== src/Build.antt =====
-- crates/jman-build/src/lib.rs: the patterns of class names and of paths, the modules of a workspace
-- and their order.
pub mod Patterns
pub mod Globs
pub mod Workspace
pub mod Modules
