-- ===== src/Build/Workspace.antt =====
-- crates/jman-build/src/lib.rs: the modules of a workspace, with what is read of their manifests
-- (crates/jman-config/src/lib.rs).
pub mod Discovery
pub mod Runs
pub mod Places
pub mod Others
pub mod Closed
use jman.Base.{ℕ, Text, List, Option, some, none}

pub data Scope : Type 0 where
  compile runtime provided test : Scope

pub record WorkspaceDependency : Type 0 where
  pub index : ℕ
  pub scope : Scope

-- A version, or a path.
pub data DependencySpec : Type 0 where
  at_version at_path : Text → DependencySpec

abbrev pub spec_path : DependencySpec → Option Text
spec_path (at_version version) = none
spec_path (at_path path) = some path

pub record Dependencies : Type 0 where
  pub compile_entries : List (Text × DependencySpec)
  pub runtime_entries : List (Text × DependencySpec)
  pub provided_entries : List (Text × DependencySpec)
  pub test_entries : List (Text × DependencySpec)

-- Of the project the group, the name and the modules.
pub record Manifest : Type 0 where
  pub group : Text
  pub name : Text
  pub modules : List Text
  pub dependencies : Dependencies

pub record Module : Type 0 where
  pub directory : Text
  pub manifest : Manifest
  pub dependencies : List WorkspaceDependency

-- An error of the program, one of the file system or of a manifest, an index out of range, or fuel
-- that is used up.
pub data Stop : Type 0 where
  invalid failed : Text → Stop
  panicked exhausted : Stop
