-- ===== src/Resolver/Effective/Build/Stages.antt =====
-- crates/jman-resolver/src/effective.rs: the stages of `build_raw` between its calls of
-- `build_remote`, in the order of the source.
use jman.Base.{
  Text, codes, text_eq, Option, none, some, List, [], ◌∷◌, ok, err, ◌>>=◌, ◌==◌, ◌&&◌,
  if◌then◌else◌, map_insert, collect_results,
}
use jman.Resolver.Error.{invalid_pom, Fallible}
use jman.Resolver.Run.{Run, lift}
use jman.Resolver.Coordinate.{Coordinate, pom}
use jman.Resolver.Dependency.{Dependency, coordinate}
use jman.Resolver.Pom.{
  RawPom, EffectivePom, Parent, Repository, AnnotationProcessor, Relocation, Properties,
}
use jman.Resolver.Effective.Interpolation.{
  interpolate_loose, interpolate_required, interpolate_dependency, interpolate_managed_dependency,
  insert_platform_properties, insert_project_properties, resolve_property_map,
}
use jman.Resolver.Effective.Collection.{
  DependencyCollection, new, insert_all, replace, replace_all, replace_repository, empty,
}
use jman.Resolver.Effective.Management.{apply_management}

-- `std::env::consts::OS` and `ARCH`
pub record Host : Type 0 where
  pub os : Text
  pub arch : Text

abbrev pub parent_coordinate : Properties → Option Parent → Option Coordinate
parent_coordinate properties none = none
parent_coordinate properties (some parent) = some (
    pom (interpolate_loose parent.group properties) (interpolate_loose parent.artifact properties)
      (interpolate_loose parent.version properties))

-- `.or_else(|| parent…).ok_or_else(|| InvalidPom(…))`
abbrev inherited : Option Text → Option Text → Text → Fallible Text
inherited (some own) from_parent message = ok own
inherited none (some value) message = ok value
inherited none none message = err (invalid_pom message)

abbrev pub from_parent {ℓ} : {A : Type ℓ} → (EffectivePom → A) → A → Option EffectivePom → A
from_parent field default none = default
from_parent field default (some model) = field model

abbrev option_from {ℓ} : {A : Type ℓ} → (EffectivePom → A) → Option EffectivePom → Option A
option_from field none = none
option_from field (some model) = some (field model)

-- `BTreeMap::extend`
unfoldable pub extend : Properties → Properties → Properties
unfolding map_insert
extend properties [] = properties
extend properties ((key, value) ∷ more) = extend (map_insert key value properties) more

-- The project's own coordinate and its properties.
pub record Identity : Type 0 where
  pub group : Text
  pub artifact : Text
  pub version : Text
  pub property_templates : Properties
  pub properties : Properties

unfoldable pub identity_of : Host → RawPom → Option EffectivePom → Fallible Identity
unfolding extend
identity_of host raw parent = do
  group ←
      inherited raw.group (option_from (λ m. m.coordinate.group) parent)
        (codes "missing project groupId")
  version ←
      inherited raw.version (option_from (λ m. m.coordinate.version) parent)
        (codes "missing project version")
  let templates = extend (from_parent (λ m. m.property_templates) [] parent) raw.properties
  let platform = insert_platform_properties host.os host.arch templates
  let first =
      resolve_property_map
        (insert_project_properties group raw.artifact version raw.parent platform)
  own_group ← interpolate_required group first
  own_artifact ← interpolate_required raw.artifact first
  own_version ← interpolate_required version first
  ok (record {
    group = own_group;
    artifact = own_artifact;
    version = own_version;
    property_templates = templates;
    properties =
        resolve_property_map
          (insert_project_properties own_group own_artifact own_version raw.parent first);
  })

-- The managed dependencies that are declared directly, and the models to import.
pub record Managed : Type 0 where
  pub direct : List Dependency
  pub imports : List Coordinate

abbrev sort_managed : Dependency → Fallible Managed → Fallible Managed
sort_managed d rest =
    let import_model = (do c ← coordinate d; m ← rest; ok (record m { imports = c ∷ m.imports })) in
    let keep = (do m ← rest; ok (record m { direct = d ∷ m.direct })) in
    if d.scope == codes "import" && d.dependency_type == codes "pom" then import_model else keep

unfoldable pub split_management : Properties → List Dependency → Fallible Managed
split_management properties [] = ok (record { direct = []; imports = [] })
split_management properties (d ∷ management) =
    sort_managed (interpolate_managed_dependency d properties)
      (split_management properties management)

-- The imported management, each key by its first import.
abbrev pub import_management : DependencyCollection → List EffectivePom → DependencyCollection
import_management c [] = c
import_management c (model ∷ models) =
    import_management (insert_all c model.dependency_management) models

-- The effective management: the parent's, under the imports, under what is declared directly.
unfoldable pub management_of :
    Option EffectivePom → List EffectivePom → List Dependency → Run DependencyCollection
unfolding insert_all replace_all new
management_of parent imported direct = do
  local ← replace_all (import_management empty imported) direct
  replace_all (new (from_parent (λ m. m.dependency_management) [] parent)) local.items

-- The loop over the declared dependencies.
unfoldable pub add_dependencies :
    Properties
    → DependencyCollection
    → DependencyCollection
    → List Dependency
    → Run DependencyCollection
unfolding replace apply_management
add_dependencies properties management c [] = ok c
add_dependencies properties management c (d ∷ dependencies) = do
  own ← lift (interpolate_dependency d properties)
  managed ← apply_management own management.items management.indices
  next ← replace c managed
  add_dependencies properties management next dependencies

unfoldable pub add_repositories :
    Properties → List Repository → List Repository → Fallible (List Repository)
unfolding replace_repository
add_repositories properties repositories [] = ok repositories
add_repositories properties repositories (r ∷ more) = do
  id ← interpolate_required r.id properties
  url ← interpolate_required r.url properties
  add_repositories properties (replace_repository repositories (record r { id = id; url = url }))
      more

unfoldable pub processors_of :
    Properties → DependencyCollection → List AnnotationProcessor → Run (List AnnotationProcessor)
processors_of properties management = collect_results λ p. do
  own ← lift (interpolate_dependency p.dependency properties)
  managed ← apply_management own management.items management.indices
  ok (record { dependency = managed })

abbrev or_own : Option Text → Text → Text
or_own none own = own
or_own (some value) own = value

abbrev relocation_of : Identity → Option Relocation → Option Coordinate
relocation_of id none = none
relocation_of id (some r) = some (record {
  group = interpolate_loose (or_own r.group id.group) id.properties;
  artifact = interpolate_loose (or_own r.artifact id.artifact) id.properties;
  version = interpolate_loose (or_own r.version id.version) id.properties;
  extension = codes "pom";
  classifier = none;
})

abbrev pub required_all : Properties → List Text → Fallible (List Text)
required_all properties = collect_results (λ value. interpolate_required value properties)

-- What follows the last import.
unfoldable pub assemble :
    RawPom → Option EffectivePom → Identity → Managed → List EffectivePom → Run EffectivePom
unfolding management_of add_dependencies add_repositories processors_of
assemble raw parent id managed imported = do
  management ← management_of parent imported managed.direct
  let inherited_dependencies = new (from_parent (λ m. m.dependencies) [] parent)
  dependencies ← add_dependencies id.properties management inherited_dependencies raw.dependencies
  repositories ← lift (
      add_repositories id.properties (from_parent (λ m. m.repositories) [] parent) raw.repositories)
  processors ← processors_of id.properties management raw.annotation_processors
  compiler_args ← lift (required_all id.properties raw.compiler_args)
  modules ← lift (required_all id.properties raw.modules)
  packaging ← lift (interpolate_required raw.packaging id.properties)
  ok (record {
    coordinate = pom id.group id.artifact id.version;
    parent = parent_coordinate raw.properties raw.parent;
    packaging = packaging;
    modules = modules;
    property_templates = id.property_templates;
    properties = id.properties;
    dependencies = dependencies.items;
    dependency_management = management.items;
    bom_imports = managed.imports;
    repositories = repositories;
    annotation_processors = processors;
    compiler_args = compiler_args;
    relocation = relocation_of id raw.relocation;
  })
