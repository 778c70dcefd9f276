-- ===== src/Resolver.antt =====
-- crates/jman-resolver: Maven coordinates, versions, effective models and the dependency graph.
pub mod Error
pub mod Run
pub mod Coordinate
pub mod Dependency
pub mod Pom
pub mod Graph
pub mod Version
pub mod Effective
