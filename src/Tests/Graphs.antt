-- ===== src/Tests/Graphs.antt =====
-- crates/jman-resolver/src/graph.rs: runs of the resolution, and its theorems at concrete data.
use jman.Base.{
  Text, codes, text_eq, Bool, false, none, some, List, [], ◌∷◌, ok, err, map, ◌≡◌, refl, any_of,
  contains, ◌==◌, ◌&&◌, ◌||◌, ◌>>=◌, lookup,
}
use jman.Resolver.Run.{exhausted}
use jman.Resolver.Run.Safe.{Safe}
use jman.Resolver.Coordinate.{pom}
use jman.Resolver.Dependency.{coordinate, management_key, matches, type_to_extension}
use jman.Resolver.Graph.Packages.{add_edge}
use jman.Resolver.Graph.Types.{ResolvedPackage, Candidate}
use jman.Resolver.Graph.Candidates.{root_candidates, derive_scope, enqueue_children}
use jman.Resolver.Graph.Candidates.Scopes.{
  derive_scope-class_paths, on_compile, on_runtime, on_test, on_processor,
}
use jman.Resolver.Graph.Classpaths.{build_classpaths}
use jman.Resolver.Graph.Classpaths.Members.{
  contains-build_classpaths, build_classpaths-IsNodup, IsNodup, provides,
}
use jman.Resolver.Graph.Resolve.{
  ResolveState, is_excluded, resolve_loop, moved, relocate, visit, select, revisit,
}
use jman.Resolver.Graph.Resolve.Invariant.{IsValid, ParentsBelow}
use jman.Resolver.Graph.Packages.Edges.{origins}
use jman.Resolver.Graph.Artifacts.Outcomes.{resolve_in_workspace-Safe}
use jman.Resolver.Graph.Resolve.Safety.{Round, resolve_loop-Safe}
use jman.Resolver.Graph.Resolve.Cycles.{Relocates, IsCandidateFor, resolve_loop-Relocates}
use jman.Resolver.Graph.Artifacts.{
  initial_state, finish_artifacts, resolve_in_workspace, ResolvedGraph,
}
use jman.Tests.Data.{
  compile_dependency, app, small_repository, circle, first_place, second_place, model_of,
}

abbrev start : ResolveState
start = initial_state small_repository app

start-IsValid : IsValid start
unfolding root_candidates
start-IsValid = record {
  queue_known = (tt, (tt, tt));
  indexed = refl;
  parents_below = tt;
  downloads_known = refl;
}

resolve_loop-Safe_example : Safe (Round start) (resolve_loop small_repository app [] 8 start)
resolve_loop-Safe_example = resolve_loop-Safe small_repository app [] 8 start start-IsValid

resolve_in_workspace-Safe_example :
    Safe
      (λ graph.
        ParentsBelow 0 (origins graph.packages)
        × (graph.class_paths ≡ build_classpaths graph.packages))
      (resolve_in_workspace small_repository 8 app [])
resolve_in_workspace-Safe_example =
    resolve_in_workspace-Safe small_repository 8 app [] (λ p ds h. h)

abbrev moved_candidate : Candidate
moved_candidate = record {
  dependency = compile_dependency (codes "moved") (codes "1");
  scope = codes "compile";
  active_exclusions = record { group = codes "*"; artifact = codes "other" } ∷ [];
  descendant_exclusions = [];
  parent = none;
}

there : Relocates circle first_place second_place
unfolding moved text_eq pom
there = record {
  model = model_of (codes "moved") (codes "1") [] (some second_place);
  built = refl;
  target = refl;
  differs = refl;
}

back : Relocates circle second_place first_place
unfolding moved text_eq pom
back = record {
  model = model_of (codes "moved") (codes "2") [] (some first_place);
  built = refl;
  target = refl;
  differs = refl;
}

moved_candidate-IsCandidateFor : IsCandidateFor moved_candidate first_place
unfolding pom matches text_eq
moved_candidate-IsCandidateFor = record {
  group = refl;
  artifact = refl;
  version = refl;
  free = refl;
}

still_free : is_excluded (relocate moved_candidate second_place) ≡ false
unfolding relocate matches text_eq pom
still_free = refl

resolve_loop-Relocates_example :
    resolve_loop circle app [] 1000 (record start { queue = moved_candidate ∷ [] }) ≡ err exhausted
resolve_loop-Relocates_example =
    resolve_loop-Relocates circle app [] 1000 first_place second_place moved_candidate [] start
      there back moved_candidate-IsCandidateFor still_free

abbrev package_of : Text → List Text → ResolvedPackage
package_of artifact scopes = record {
  coordinate = pom (codes "org") artifact (codes "1");
  source = codes "central";
  pom_checksum = artifact;
  artifact_checksum = some artifact;
  artifact_size = none;
  artifact_path = none;
  dependencies = [];
  effective_scopes = scopes;
  selected_parent = none;
}

abbrev packages : List ResolvedPackage
packages =
    package_of (codes "a") (codes "compile" ∷ codes "test" ∷ [])
    ∷ package_of (codes "b") (codes "provided" ∷ [])
    ∷ package_of (codes "a") (codes "runtime" ∷ [])
    ∷ []

compile_path : (build_classpaths packages).compile.target ≡ codes "a" ∷ codes "b" ∷ []
unfolding build_classpaths text_eq
compile_path = refl

contains-build_classpaths_example :
    let paths = build_classpaths packages in
    let on = λ (role : Text → Bool).
      any_of
        (λ (p : ResolvedPackage). provides role (codes "b") p.artifact_checksum p.effective_scopes)
        packages in
    (contains paths.compile.target (codes "b") ≡ on on_compile)
    × (contains paths.runtime.target (codes "b") ≡ on on_runtime)
    × (contains paths.test.target (codes "b") ≡ on on_test)
    × (contains paths.processor.target (codes "b") ≡ on on_processor)
contains-build_classpaths_example = contains-build_classpaths packages (codes "b")

build_classpaths-IsNodup_example :
    let paths = build_classpaths packages in
    IsNodup paths.compile.target
    × IsNodup paths.runtime.target
    × IsNodup paths.test.target
    × IsNodup paths.processor.target
build_classpaths-IsNodup_example = build_classpaths-IsNodup packages

runtime_below_compile : derive_scope (codes "compile") (codes "runtime") ≡ some (codes "runtime")
unfolding derive_scope text_eq
runtime_below_compile = refl

derive_scope-class_paths_example :
    (on_runtime (codes "runtime") ≡ on_runtime (codes "compile"))
    × (on_test (codes "runtime") ≡ on_test (codes "compile"))
    × (on_processor (codes "runtime") ≡ on_processor (codes "compile"))
    × (on_compile (codes "runtime") ≡ (
        on_compile (codes "compile")
        && (codes "compile" == codes "provided" || codes "runtime" == codes "compile")))
derive_scope-class_paths_example =
    derive_scope-class_paths (codes "compile") (codes "runtime") runtime_below_compile

abbrev names_of : List ResolvedPackage → List Text
names_of = map (λ p. p.coordinate.artifact)

abbrev summary : ResolvedGraph → List Text × List Text
summary graph = (names_of graph.packages, graph.class_paths.compile.target)

-- `right` is selected once, in the version of the application, which stands nearer.
small_resolution :
    (resolve_in_workspace small_repository 8 app [] >>= λ graph. ok (summary graph))
    ≡ ok (codes "left" ∷ codes "right" ∷ [], codes "left" ∷ codes "right" ∷ [])
unfolding resolve_in_workspace resolve_loop root_candidates visit coordinate text_eq pom moved
    lookup select add_edge enqueue_children management_key revisit finish_artifacts
    type_to_extension build_classpaths
small_resolution = refl
