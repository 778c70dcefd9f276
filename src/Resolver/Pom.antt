-- ===== src/Resolver/Pom.antt =====
-- crates/jman-resolver/src/model.rs: the POM as it is parsed, and the effective model. A
-- `BTreeMap<String, String>` is a list of its entries, and a path is its text.
use jman.Base.{Text, Bool, Option, List}
use jman.Resolver.Coordinate.{Coordinate}
use jman.Resolver.Dependency.{Dependency}

pub record Parent : Type 0 where
  pub group : Text
  pub artifact : Text
  pub version : Text
  pub relative_path : Option Text

pub record Repository : Type 0 where
  pub id : Text
  pub url : Text
  pub releases_enabled : Bool
  pub snapshots_enabled : Bool

pub record AnnotationProcessor : Type 0 where
  pub dependency : Dependency

pub record Relocation : Type 0 where
  pub group : Option Text
  pub artifact : Option Text
  pub version : Option Text

abbrev pub Properties : Type 0
Properties = List (Text × Text)

pub record RawPom : Type 0 where
  pub model_version : Option Text
  pub parent : Option Parent
  pub group : Option Text
  pub artifact : Text
  pub version : Option Text
  pub packaging : Text
  pub modules : List Text
  pub properties : Properties
  pub dependencies : List Dependency
  pub dependency_management : List Dependency
  pub repositories : List Repository
  pub annotation_processors : List AnnotationProcessor
  pub compiler_args : List Text
  pub relocation : Option Relocation

pub record EffectivePom : Type 0 where
  pub coordinate : Coordinate
  pub parent : Option Coordinate
  pub packaging : Text
  pub modules : List Text
  pub property_templates : Properties
  pub properties : Properties
  pub dependencies : List Dependency
  pub dependency_management : List Dependency
  pub bom_imports : List Coordinate
  pub repositories : List Repository
  pub annotation_processors : List AnnotationProcessor
  pub compiler_args : List Text
  pub relocation : Option Coordinate

pub record MavenProject : Type 0 where
  pub source : Text
  pub effective : EffectivePom
