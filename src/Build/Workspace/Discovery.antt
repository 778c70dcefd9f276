-- ===== src/Build/Workspace/Discovery.antt =====
-- crates/jman-build/src/lib.rs: `discover_modules` and `discover_workspace_dependencies`. Of the file
-- system, `canonical directory path` is the canonical path of `path` in `directory`, or in the current
-- one where that is empty, `starts_with` is that of Rust's paths, and `read_manifest` reads and checks the manifest of a directory.
use jman.Base.{
  ℕ, zero, suc, Text, text_eq, codes, Bool, Option, none, some, List, [], ◌∷◌, ◌++◌, ◌=ℕ=◌, ltb,
  if◌then◌else◌, not, ◌==◌, contains, lookup, Result, ok, err, ◌>>=◌, ◌>>◌, require,
}
use jman.Build.Workspace.{
  Scope, compile, runtime, provided, test, WorkspaceDependency, DependencySpec, spec_path, Manifest,
  Module, Stop, invalid, failed, panicked, exhausted,
}

abbrev quoted : Text → Text
quoted s = codes "`" ++ s ++ codes "`"

abbrev scope_name : Scope → Text
scope_name compile = codes "Compile"
scope_name runtime = codes "Runtime"
scope_name provided = codes "Provided"
scope_name test = codes "Test"

abbrev pub coordinate_of : Manifest → Text
coordinate_of manifest = manifest.group ++ codes ":" ++ manifest.name

-- `BTreeMap<PathBuf, usize>`, and `&coordinates[index]`.
abbrev pub Indices : Type 0
Indices = List (Text × ℕ)

unfoldable pub coordinate_at : List Text → ℕ → Result Stop Text
coordinate_at [] i = err panicked
coordinate_at (c ∷ coordinates) zero = ok c
coordinate_at (c ∷ coordinates) (suc i) = coordinate_at coordinates i

unfoldable pub scope_at : ℕ → List WorkspaceDependency → Option Scope
scope_at i [] = none
scope_at i (d ∷ targets) =
    let rest = scope_at i targets in if d.index =ℕ= i then some d.scope else rest

abbrev pub or_else : Stop → Option ℕ → Result Stop ℕ
or_else stop none = err stop
or_else stop (some index) = ok index

-- `sort_by_key(|dependency| dependency.index)`, which is stable.
abbrev pub insert_by_index :
    WorkspaceDependency → List WorkspaceDependency → List WorkspaceDependency
insert_by_index d [] = d ∷ []
insert_by_index d (e ∷ sorted) =
    let rest = insert_by_index d sorted in if ltb e.index d.index then e ∷ rest else d ∷ e ∷ sorted

abbrev pub sort_by_index : List WorkspaceDependency → List WorkspaceDependency
sort_by_index [] = []
sort_by_index (d ∷ dependencies) = insert_by_index d (sort_by_index dependencies)

-- The targets are those of the dependencies that were found.
abbrev pub add_target :
    Scope
    → Text
    → ℕ
    → List WorkspaceDependency
    → Option Scope
    → Result Stop (List WorkspaceDependency)
add_target scope coordinate index found (some previous) = err (
    invalid (
      codes "workspace dependency "
      ++ quoted coordinate
      ++ codes " is declared in both "
      ++ scope_name previous
      ++ codes " and "
      ++ scope_name scope
      ++ codes " scopes"))
add_target scope coordinate index found none =
    ok (found ++ (record { index = index; scope = scope } ∷ []))

abbrev pub indices_from : ℕ → List (Text × Manifest) → Indices
indices_from i [] = []
indices_from i ((directory, manifest) ∷ raw) = (directory, i) ∷ indices_from (suc i) raw

abbrev pub coordinates_of : List (Text × Manifest) → List Text
coordinates_of [] = []
coordinates_of ((directory, manifest) ∷ raw) = coordinate_of manifest ∷ coordinates_of raw

abbrev pub or_failed {ℓ} : {A : Type ℓ} → Text → Option A → Result Stop A
or_failed path none = err (failed path)
or_failed path (some a) = ok a

module _ (canonical : Text → Text → Option Text) (starts_with : Text → Text → Bool)
    (read_manifest : Text → Option Manifest) where
  abbrev pub canonicalize : Text → Text → Result Stop Text
  canonicalize directory path = or_failed path (canonical directory path)

  module _ (directory : Text) (manifest : Manifest) (root : Text) (indices : Indices)
      (coordinates : List Text) where
    unfoldable pub add_path :
        Scope → Text → Text → List WorkspaceDependency → Result Stop (List WorkspaceDependency)
    unfolding coordinate_at scope_at lookup
    add_path scope coordinate relative found = do
      dependency ← canonicalize directory relative
      require (starts_with dependency root) (
          invalid (
            codes "workspace dependency "
            ++ coordinate
            ++ codes " from "
            ++ directory
            ++ codes " escapes workspace "
            ++ root))
      index ←
          or_else
            (invalid (
              codes "workspace dependency "
              ++ coordinate
              ++ codes " at "
              ++ dependency
              ++ codes " from "
              ++ directory
              ++ codes " is not a declared workspace module"))
            (lookup dependency indices)
      own ← or_else panicked (lookup directory indices)
      require (not (index =ℕ= own))
          (invalid (codes "module " ++ quoted manifest.name ++ codes " cannot depend on itself"))
      expected ← coordinate_at coordinates index
      require (coordinate == expected) (
          invalid (
            codes "workspace dependency "
            ++ quoted coordinate
            ++ codes " points to "
            ++ quoted expected
            ++ codes " at "
            ++ dependency))
      add_target scope coordinate index found (scope_at index found)

    abbrev pub add_entry :
        Scope
        → Text
        → Option Text
        → List WorkspaceDependency
        → Result Stop (List WorkspaceDependency)
    add_entry scope coordinate none found = ok found
    add_entry scope coordinate (some relative) found = add_path scope coordinate relative found

    unfoldable pub add_entries :
        Scope
        → List (Text × DependencySpec)
        → List WorkspaceDependency
        → Result Stop (List WorkspaceDependency)
    unfolding add_path
    add_entries scope [] found = ok found
    add_entries scope ((coordinate, specification) ∷ entries) found = do
      more ← add_entry scope coordinate (spec_path specification) found
      add_entries scope entries more

    unfoldable pub discover_workspace_dependencies : Result Stop (List WorkspaceDependency)
    unfolding add_entries
    discover_workspace_dependencies = do
      a ← add_entries compile manifest.dependencies.compile_entries []
      b ← add_entries runtime manifest.dependencies.runtime_entries a
      c ← add_entries provided manifest.dependencies.provided_entries b
      d ← add_entries test manifest.dependencies.test_entries c
      ok (sort_by_index d)

  -- The children of a manifest, the first in front of what is pending.
  abbrev pub push_children : Text → Text → List Text → List Text → Result Stop (List Text)
  push_children root directory [] pending = ok pending
  push_children root directory (child ∷ children) pending = do
    rest ← push_children root directory children pending
    path ← canonicalize directory child
    require (starts_with path root)
        (invalid (codes "module " ++ path ++ codes " escapes workspace " ++ root))
    ok (path ∷ rest)

  unfoldable pub discover_raw :
      ℕ → Text → List Text → List Text → Result Stop (List (Text × Manifest))
  discover_raw fuel root [] seen = ok []
  discover_raw zero root (directory ∷ pending) seen = err exhausted
  discover_raw (suc fuel) root (directory ∷ pending) seen = do
    require (not (contains seen directory))
        (invalid (codes "duplicate or cyclic module declaration at " ++ directory))
    manifest ← or_failed directory (read_manifest directory)
    next ← push_children root directory manifest.modules pending
    rest ← discover_raw fuel root next (directory ∷ seen)
    ok ((directory, manifest) ∷ rest)

  unfoldable pub connect :
      Text → Indices → List Text → List (Text × Manifest) → Result Stop (List Module)
  unfolding discover_workspace_dependencies
  connect root indices coordinates [] = ok []
  connect root indices coordinates ((directory, manifest) ∷ raw) = do
    dependencies ← discover_workspace_dependencies directory manifest root indices coordinates
    modules ← connect root indices coordinates raw
    ok (
        record { directory = directory; manifest = manifest; dependencies = dependencies }
        ∷ modules)

  -- As many directories may be visited as the fuel has.
  unfoldable pub discover_modules : ℕ → Text → Result Stop (List Module)
  unfolding discover_raw connect
  discover_modules fuel start = do
    root ← canonicalize [] start
    raw ← discover_raw fuel root (root ∷ []) []
    connect root (indices_from 0 raw) (coordinates_of raw) raw
