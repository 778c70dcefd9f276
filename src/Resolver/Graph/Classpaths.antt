-- ===== src/Resolver/Graph/Classpaths.antt =====
-- crates/jman-resolver/src/graph.rs: `build_classpaths` and `push_unique`.
pub mod Members
use jman.Base.{
  Text, codes, text_eq, Option, none, some, List, [], ◌∷◌, ◌++◌, ◌==◌, if◌then◌else◌, contains,
}
use jman.Resolver.Graph.Types.{ResolvedPackage}

-- One class path with its set of the checksums seen.
pub record ClassPath : Type 0 where
  pub target : List Text
  pub seen : List Text

unfoldable pub push_unique : Text → ClassPath → ClassPath
push_unique checksum r =
    if contains r.seen checksum
    then r
    else record { target = r.target ++ (checksum ∷ []); seen = checksum ∷ r.seen }

pub record ClassPaths : Type 0 where
  pub compile : ClassPath
  pub runtime : ClassPath
  pub test : ClassPath
  pub processor : ClassPath

-- The `match` on one scope of a package.
unfoldable pub add_scope : Text → Text → ClassPaths → ClassPaths
add_scope checksum scope r =
    if scope == codes "compile"
    then record {
      compile = push_unique checksum r.compile;
      runtime = push_unique checksum r.runtime;
      test = push_unique checksum r.test;
      processor = r.processor;
    }
    else if scope == codes "runtime"
    then record r { runtime = push_unique checksum r.runtime; test = push_unique checksum r.test }
    else if scope == codes "provided"
    then record r { compile = push_unique checksum r.compile; test = push_unique checksum r.test }
    else if scope == codes "test"
    then record r { test = push_unique checksum r.test }
    else if scope == codes "processor"
    then record r { processor = push_unique checksum r.processor }
    else r

unfoldable pub add_scopes : Text → List Text → ClassPaths → ClassPaths
add_scopes checksum [] r = r
add_scopes checksum (scope ∷ scopes) r = add_scopes checksum scopes (add_scope checksum scope r)

-- A package without an artifact is passed over.
unfoldable pub add_package : Option Text → List Text → ClassPaths → ClassPaths
unfolding push_unique add_scope add_scopes
add_package none scopes r = r
add_package (some checksum) scopes r = add_scopes checksum scopes r

unfoldable pub add_packages : List ResolvedPackage → ClassPaths → ClassPaths
unfolding add_package
add_packages [] r = r
add_packages (p ∷ packages) r =
    add_packages packages (add_package p.artifact_checksum p.effective_scopes r)

abbrev pub empty_path : ClassPath
empty_path = record { target = []; seen = [] }

abbrev pub empty_paths : ClassPaths
empty_paths = record {
  compile = empty_path;
  runtime = empty_path;
  test = empty_path;
  processor = empty_path;
}

-- `build_classpaths`
unfoldable pub build_classpaths : List ResolvedPackage → ClassPaths
unfolding add_packages
build_classpaths packages = add_packages packages empty_paths
