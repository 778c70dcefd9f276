-- ===== src/Resolver/Graph/Types.antt =====
-- crates/jman-resolver/src/graph.rs and repository.rs: packages, candidates, and a fetched file.
use jman.Base.{ℕ, Text, Option, List}
use jman.Resolver.Coordinate.{Coordinate}
use jman.Resolver.Dependency.{Dependency, Exclusion}

-- `CachedFile`, with its bytes as numbers.
pub record CachedFile : Type 0 where
  pub bytes : List ℕ
  pub path : Text
  pub checksum : Text
  pub source : Text

pub record ResolvedPackage : Type 0 where
  pub coordinate : Coordinate
  pub source : Text
  pub pom_checksum : Text
  pub artifact_checksum : Option Text
  pub artifact_size : Option ℕ
  pub artifact_path : Option Text
  pub dependencies : List Text
  pub effective_scopes : List Text
  pub selected_parent : Option ℕ

pub record Candidate : Type 0 where
  pub dependency : Dependency
  pub scope : Text
  pub active_exclusions : List Exclusion
  pub descendant_exclusions : List Exclusion
  pub parent : Option ℕ
