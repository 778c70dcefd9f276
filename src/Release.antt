-- ===== src/Release.antt =====
-- crates/jman-version/src/versioning.rs: semantic versions, and the build identity that is read
-- from a description by git. Running git and printing for cargo are not modelled.
pub mod Semver
pub mod Describe
