-- ===== src/Resolver/Graph.antt =====
-- crates/jman-resolver/src/graph.rs: the resolution of a project's dependencies into packages and
-- class paths. `Types` holds its data, `Candidates` what enters the queue, `Packages` the updates
-- of the package list, `Resolve` the loop, `Artifacts` the downloads, `Classpaths` the roles.
pub mod Types
pub mod Candidates
pub mod Packages
pub mod Classpaths
pub mod Resolve
pub mod Artifacts
