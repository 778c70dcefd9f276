-- ===== src/Resolver/Graph/Artifacts.antt =====
-- crates/jman-resolver/src/graph.rs: `finish_artifacts`, and the whole of `resolve_in_workspace`.
pub mod Outcomes
use jman.Base.{ℕ, leb, some, List, [], ◌∷◌, ok, ◌>>=◌, if◌then◌else◌, length, collect_results}
use jman.Resolver.Error.{Fallible}
use jman.Resolver.Coordinate.{Coordinate}
use jman.Resolver.Pom.{EffectivePom, MavenProject}
use jman.Resolver.Graph.Types.{CachedFile, ResolvedPackage}
use jman.Resolver.Graph.Candidates.{root_candidates}
use jman.Resolver.Run.{Run, lift, update_at}
use jman.Resolver.Graph.Classpaths.{ClassPaths, build_classpaths}
use jman.Resolver.Graph.Resolve.{Environment, ResolveState, resolve_loop}

abbrev pub Artifact : Type 0
Artifact = ℕ × CachedFile

-- `sort_unstable_by_key` on the index, by insertion.
unfoldable pub insert_artifact : Artifact → List Artifact → List Artifact
insert_artifact a [] = a ∷ []
insert_artifact a (b ∷ sorted) =
    let rest = insert_artifact a sorted in if leb a.0 b.0 then a ∷ b ∷ sorted else b ∷ rest

unfoldable pub sort_artifacts : List Artifact → List Artifact
unfolding insert_artifact
sort_artifacts [] = []
sort_artifacts (a ∷ artifacts) = insert_artifact a (sort_artifacts artifacts)

abbrev pub with_artifact : CachedFile → ResolvedPackage → ResolvedPackage
with_artifact file p = record p {
  artifact_checksum = some file.checksum;
  artifact_size = some (length file.bytes);
  artifact_path = some file.path;
}

unfoldable pub store_artifacts : List Artifact → List ResolvedPackage → Run (List ResolvedPackage)
unfolding update_at
store_artifacts [] packages = ok packages
store_artifacts ((index, file) ∷ artifacts) packages =
    update_at packages index (with_artifact file) >>= store_artifacts artifacts

pub record ResolvedGraph : Type 0 where
  pub packages : List ResolvedPackage
  pub class_paths : ClassPaths

module _ (env : Environment) where
  -- The task that `schedule_artifact` spawns.
  abbrev pub download : ℕ × Coordinate → Fallible Artifact
  download (index, c) = do file ← env.fetch c; ok (index, file)

  -- `finish_artifacts`; the tasks are joined in the order in which they complete.
  unfoldable pub finish_artifacts :
      List (ℕ × Coordinate) → List ResolvedPackage → Run (List ResolvedPackage)
  unfolding sort_artifacts store_artifacts
  finish_artifacts downloads packages = do
    artifacts ← lift (collect_results download (env.completion_order downloads))
    store_artifacts (sort_artifacts artifacts) packages

  abbrev pub initial_state : EffectivePom → ResolveState
  initial_state project = record {
    queue = root_candidates project;
    packages = [];
    selected = [];
    downloads = [];
  }

  -- `resolve_in_workspace`
  unfoldable pub resolve_in_workspace : ℕ → EffectivePom → List MavenProject → Run ResolvedGraph
  resolve_in_workspace fuel project workspace = do
    s ← resolve_loop env project workspace fuel (initial_state project)
    packages ← finish_artifacts s.downloads s.packages
    ok (record { packages = packages; class_paths = build_classpaths packages })
