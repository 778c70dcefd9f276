-- ===== src/Tests/Builds.antt =====
-- crates/jman-build/src/lib.rs: theorems at concrete data.
use jman.Base.{
  ℕ, codes, true, false, some, List, [], ◌∷◌, ◌++◌, ◌≡◌, Option, Bool, Text, none, err, text_eq,
  ◌==◌, Bool-cases, inl, inr, sym, if◌then◌else◌, contains, refl, ok, map, ◌↔◌, split_on, ◌=ℕ=◌,
  arith,
}
use jman.Build.Patterns.{dotted, wildcard_matches}
use jman.Build.Patterns.Meaning.{means}
use jman.Build.Patterns.Greedy.{wildcard_matches-means}
use jman.Build.Globs.{path_glob_matches}
use jman.Build.Globs.Paths.{Globs, path_glob_matches-Globs}
use jman.Build.Workspace.{
  Scope, compile, provided, WorkspaceDependency, DependencySpec, at_path, Manifest, Module,
}
use jman.Build.Workspace.Discovery.{discover_modules}
use jman.Build.Workspace.Runs.{Yields}
use jman.Build.Workspace.Closed.{IsOrdered, discover_modules-IsOrdered}
use jman.Build.Modules.{running, topological_layers, transitive_dependencies}
use jman.Build.Modules.Layers.{Orders, topological_layers-Orders}
use jman.Build.Modules.Closure.{Closes, transitive_dependencies-Closes}

wildcard_backtracks : wildcard_matches (codes "a/*b?") (codes "a.bbxbc") ≡ some true
unfolding wildcard_matches
wildcard_backtracks = refl

-- The last character of `Café` is two bytes.
question_mark_byte : wildcard_matches (codes "Caf?") (codes "Caf" ++ (195 ∷ 169 ∷ [])) ≡ some false
unfolding wildcard_matches
question_mark_byte = refl

wildcard_matches-means_example :
    wildcard_matches (codes "a/*b?") (codes "a.bbxbc")
    ≡ some (means (map dotted (codes "a/*b?")) (codes "a.bbxbc"))
wildcard_matches-means_example = wildcard_matches-means (codes "a/*b?") (codes "a.bbxbc") refl

path_glob_matches-Globs_example :
    (path_glob_matches (codes "src/**/*.proto") (codes "src/a/b.proto") ≡ true)
    ↔ Globs
        (split_on (λ c. c =ℕ= b'/') (codes "src/**/*.proto"))
        (split_on (λ c. c =ℕ= b'/') (codes "src/a/b.proto"))
path_glob_matches-Globs_example =
    path_glob_matches-Globs (codes "src/**/*.proto") (codes "src/a/b.proto")

abbrev needs : ℕ → Scope → WorkspaceDependency
needs index scope = record { index = index; scope = scope }

abbrev manifest_of : Text → List Text → List (Text × DependencySpec) → Manifest
manifest_of name modules entries = record {
  group = codes "g";
  name = name;
  modules = modules;
  dependencies = record {
    compile_entries = entries;
    runtime_entries = [];
    provided_entries = [];
    test_entries = [];
  };
}

abbrev module_of : Text → List WorkspaceDependency → Module
module_of name dependencies = record {
  directory = codes "/w/" ++ name;
  manifest = manifest_of name [] [];
  dependencies = dependencies;
}

abbrev app : Module
app = module_of (codes "app") (needs 1 compile ∷ needs 2 provided ∷ [])

abbrev core : Module
core = module_of (codes "core") (needs 2 compile ∷ [])

abbrev util : Module
util = module_of (codes "util") []

abbrev workspace : List Module
workspace = app ∷ core ∷ util ∷ []

abbrev circle : List Module
circle = app ∷ module_of (codes "core") (needs 0 compile ∷ []) ∷ util ∷ []

three_layers : topological_layers workspace ≡ ok ((2 ∷ []) ∷ (1 ∷ []) ∷ (0 ∷ []) ∷ [])
unfolding topological_layers
three_layers = refl

runtime_of_app : transitive_dependencies 0 workspace running ≡ ok (1 ∷ 2 ∷ [])
unfolding transitive_dependencies
runtime_of_app = refl

topological_layers-Orders_example : Orders circle [] (topological_layers circle)
topological_layers-Orders_example = topological_layers-Orders circle refl

transitive_dependencies-Closes_example :
    (found : List ℕ) × (transitive_dependencies 0 workspace running ≡ ok found)
    × Closes workspace running 0 found
transitive_dependencies-Closes_example =
    transitive_dependencies-Closes workspace running 0 refl (omega arith)

-- A project with one module, on which it depends.
abbrev canonical : Text → Text → Option Text
canonical directory path =
    if path == codes "core"
    then some (codes "/w/core")
    else if path == codes "."
    then some (codes "/w")
    else none

abbrev read_manifest : Text → Option Manifest
read_manifest directory =
    if directory == codes "/w"
    then some (
        manifest_of (codes "app") (codes "core" ∷ [])
          ((codes "g:core", at_path (codes "core")) ∷ []))
    else some (manifest_of (codes "core") [] [])

abbrev inside : Text → Text → Bool
inside path root = true

abbrev paths : List Text
paths = codes "/w" ∷ codes "/w/core" ∷ []

here_core : contains paths (codes "/w/core") ≡ true
unfolding text_eq
here_core = refl

here_root : contains paths (codes "/w") ≡ true
unfolding text_eq
here_root = refl

known :
    (directory path found : Text)
    → canonical directory path ≡ some found
    → contains paths found ≡ true
known directory path found h = elim (Bool-cases (path == codes "core")) [
  | inl e ↦ let which : codes "/w/core" ≡ found = cc in rw (sym which) here_core
  | inr e ↦ elim (Bool-cases (path == codes ".")) [
    | inl f ↦ let which : codes "/w" ≡ found = cc in rw (sym which) here_root
    | inr f ↦ cc
  ]
]

two_modules :
    map
      (λ m. m.directory)
      (elim (discover_modules canonical inside read_manifest 3 (codes ".")) [
        | ok modules ↦ modules
        | err _ ↦ []
      ])
    ≡ codes "/w" ∷ codes "/w/core" ∷ []
unfolding discover_modules text_eq
two_modules = refl

discover_modules-IsOrdered_example :
    Yields IsOrdered (discover_modules canonical inside read_manifest 3 (codes "."))
discover_modules-IsOrdered_example =
    discover_modules-IsOrdered canonical inside read_manifest paths known 3 (codes ".")
      (omega arith)
