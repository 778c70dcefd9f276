-- ===== src/Resolver/Dependency.antt =====
-- crates/jman-resolver/src/model.rs: `Exclusion`, `Dependency` and the coordinate that a dependency
-- names.
use jman.Base.{
  Text, codes, text_eq, Bool, Option, none, some, List, ok, err, ◌==◌, if◌then◌else◌, ◌&&◌, ◌||◌,
}
use jman.Resolver.Error.{missing_version, Fallible}
use jman.Resolver.Coordinate.{Coordinate, text_or_empty, ◌<:>◌}

pub record Exclusion : Type 0 where
  pub group : Text
  pub artifact : Text

pub record Dependency : Type 0 where
  pub group : Text
  pub artifact : Text
  pub version : Option Text
  pub scope : Text
  pub scope_explicit : Bool
  pub dependency_type : Text
  pub type_explicit : Bool
  pub classifier : Option Text
  pub optional : Option Bool
  pub exclusions : List Exclusion

-- `Exclusion::matches`
unfoldable pub matches : Exclusion → Dependency → Bool
matches e d =
    (e.group == codes "*" || e.group == d.group)
    && (e.artifact == codes "*" || e.artifact == d.artifact)

-- `Dependency::ga`
unfoldable pub ga : Dependency → Text
ga d = d.group <:> d.artifact

-- `Dependency::management_key`
unfoldable pub management_key : Dependency → Text
management_key d = d.group <:> d.artifact <:> d.dependency_type <:> text_or_empty d.classifier

unfoldable pub type_to_extension : Text → Text
type_to_extension t =
    if t == codes "test-jar" || t == codes "bundle" || t == codes "maven-plugin" || t == codes "ejb"
    then codes "jar"
    else t

-- `.or_else(|| (dependency_type == "test-jar").then(|| "tests"))`
abbrev default_classifier : Text → Option Text → Option Text
default_classifier t none = if t == codes "test-jar" then some (codes "tests") else none
default_classifier t (some classifier) = some classifier

abbrev with_version : Dependency → Option Text → Fallible Coordinate
with_version d none = err (missing_version (ga d))
with_version d (some version) = ok (record {
  group = d.group;
  artifact = d.artifact;
  version = version;
  extension = type_to_extension d.dependency_type;
  classifier = default_classifier d.dependency_type d.classifier;
})

-- `Dependency::coordinate`
unfoldable pub coordinate : Dependency → Fallible Coordinate
coordinate d = with_version d d.version
