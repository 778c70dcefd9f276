-- ===== src/Tests/Data.antt =====
-- A small repository: `app` needs `left` and `right`, and `left` needs an older `right`.
use jman.Base.{
  Text, codes, text_eq, false, Option, none, some, List, [], ◌∷◌, ok, err, ◌==◌, if◌then◌else◌,
}
use jman.Resolver.Error.{offline_miss, Fallible}
use jman.Resolver.Coordinate.{Coordinate, pom}
use jman.Resolver.Dependency.{Dependency}
use jman.Resolver.Pom.{EffectivePom, RawPom}
use jman.Resolver.Graph.Types.{CachedFile}
use jman.Resolver.Graph.Resolve.{Environment}

abbrev pub compile_dependency : Text → Text → Dependency
compile_dependency artifact version = record {
  group = codes "org";
  artifact = artifact;
  version = some version;
  scope = codes "compile";
  scope_explicit = false;
  dependency_type = codes "jar";
  type_explicit = false;
  classifier = none;
  optional = none;
  exclusions = [];
}

abbrev pub model_of : Text → Text → List Dependency → Option Coordinate → EffectivePom
model_of artifact version dependencies relocation = record {
  coordinate = pom (codes "org") artifact version;
  parent = none;
  packaging = codes "jar";
  modules = [];
  property_templates = [];
  properties = [];
  dependencies = dependencies;
  dependency_management = [];
  bom_imports = [];
  repositories = [];
  annotation_processors = [];
  compiler_args = [];
  relocation = relocation;
}

abbrev pub app : EffectivePom
app =
    model_of (codes "app") (codes "1")
      (compile_dependency (codes "left") (codes "1")
        ∷ compile_dependency (codes "right") (codes "2")
        ∷ [])
      none

abbrev file_of : Coordinate → CachedFile
file_of c = record {
  bytes = 1 ∷ 2 ∷ [];
  path = c.artifact;
  checksum = c.artifact;
  source = codes "central";
}

abbrev models : Coordinate → Fallible EffectivePom
models c =
    if c.artifact == codes "left"
    then ok (
        model_of (codes "left") c.version (compile_dependency (codes "right") (codes "1") ∷ [])
          none)
    else if c.artifact == codes "right"
    then ok (model_of (codes "right") c.version [] none)
    else err (offline_miss c.artifact)

abbrev pub small_repository : Environment
small_repository = record {
  build_coordinate = models;
  fetch = λ c. ok (file_of c);
  read_file = λ path. ok [];
  sha256_hex = λ bytes. [];
  completion_order = λ downloads. downloads;
}

abbrev pub first_place : Coordinate
first_place = pom (codes "org") (codes "moved") (codes "1")

abbrev pub second_place : Coordinate
second_place = pom (codes "org") (codes "moved") (codes "2")

-- Version 1 is relocated to version 2, and any other to version 1.
abbrev circle_models : Coordinate → Fallible EffectivePom
circle_models c = ok (
    model_of c.artifact c.version []
      (some (if c.version == codes "1" then second_place else first_place)))

abbrev pub circle : Environment
circle = record small_repository { build_coordinate = circle_models }

-- The one POM names itself as its parent.
abbrev pub own_parent : RawPom
own_parent = record {
  model_version = none;
  parent = some (record {
    group = codes "org";
    artifact = codes "self";
    version = codes "1";
    relative_path = none;
  });
  group = none;
  artifact = codes "self";
  version = none;
  packaging = codes "pom";
  modules = [];
  properties = [];
  dependencies = [];
  dependency_management = [];
  repositories = [];
  annotation_processors = [];
  compiler_args = [];
  relocation = none;
}

abbrev pub self : Coordinate
self = pom (codes "org") (codes "self") (codes "1")
