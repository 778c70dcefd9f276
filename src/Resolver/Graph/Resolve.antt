-- ===== src/Resolver/Graph/Resolve.antt =====
-- crates/jman-resolver/src/graph.rs: `resolve_in_workspace`, its loop over the queue and the
-- downloads that it starts. The speculative prefetch only warms the repository's cache, and its
-- errors are dropped, so it has no part in the result.
pub mod Invariant
pub mod Safety
pub mod Cycles
use jman.Base.{
  ℕ, zero, suc, ◌≤◌, Text, codes, text_eq, Bool, true, false, Option, none, some, List, [], ◌∷◌,
  ◌++◌, ok, err, Result, ◌>>=◌, ◌==◌, ◌&&◌, not, if◌then◌else◌, contains, any_of, is_empty, length,
  lookup, set_insert, leb, collect_results,
}
use jman.Resolver.Error.{Fallible}
use jman.Resolver.Run.{Run, exhausted, lift, at_index, update_at}
use jman.Resolver.Coordinate.{Coordinate, pom}
use jman.Resolver.Dependency.{Dependency, matches, coordinate, management_key}
use jman.Resolver.Pom.{EffectivePom, MavenProject}
use jman.Resolver.Graph.Types.{CachedFile, ResolvedPackage, Candidate}
use jman.Resolver.Graph.Candidates.{root_candidates, enqueue_children}
use jman.Resolver.Graph.Packages.{add_edge}
use jman.Resolver.Graph.Classpaths.{ClassPaths, build_classpaths}

-- What the loop calls: the effective-model builder with the workspace remembered, the repository,
-- the file system and its digest, and the order in which the downloads complete.
pub record Environment : Type 0 where
  pub build_coordinate : Coordinate → Fallible EffectivePom
  pub fetch : Coordinate → Fallible CachedFile
  pub read_file : Text → Fallible (List ℕ)
  pub sha256_hex : List ℕ → Text
  pub completion_order : List (ℕ × Coordinate) → List (ℕ × Coordinate)

pub record ResolveState : Type 0 where
  pub queue : List Candidate
  pub packages : List ResolvedPackage
  pub selected : List (Text × ℕ)
  pub downloads : List (ℕ × Coordinate)

abbrev pub is_excluded : Candidate → Bool
is_excluded c = any_of (λ e. matches e c.dependency) c.active_exclusions

-- The relocation that is followed: one that names another coordinate.
unfoldable pub moved : Coordinate → Option Coordinate → Option Coordinate
moved c none = none
moved c (some r) =
    if r.group == c.group && (r.artifact == c.artifact && r.version == c.version)
    then none
    else some r

unfoldable pub relocate : Candidate → Coordinate → Candidate
relocate c r = record c {
  dependency = record (c.dependency) {
    group = r.group;
    artifact = r.artifact;
    version = some r.version;
  };
}

abbrev pub add_effective_scope : Text → ResolvedPackage → ResolvedPackage
add_effective_scope scope p = record p { effective_scopes = set_insert scope p.effective_scopes }

abbrev pub find_module : Coordinate → List MavenProject → Option MavenProject
find_module c [] = none
find_module c (m ∷ workspace) =
    let own = m.effective.coordinate in
    if own.group == c.group && (own.artifact == c.artifact && own.version == c.version)
    then some m
    else find_module c workspace

module _ (env : Environment) where
  -- `local_pom_file`
  unfoldable pub local_pom_file : MavenProject → Fallible CachedFile
  local_pom_file m = do
    bytes ← env.read_file m.source
    ok (record {
      bytes = bytes;
      path = m.source;
      checksum = codes "sha256:" ++ env.sha256_hex bytes;
      source = codes "workspace:" ++ m.source;
    })

  abbrev pub pom_file : Coordinate → Option MavenProject → Fallible CachedFile
  pom_file c none = env.fetch (pom c.group c.artifact c.version)
  pom_file c (some m) = local_pom_file m

  -- `schedule_artifact`, which a workspace module and a bare POM do without.
  abbrev pub schedule_artifact :
      Coordinate → ℕ → Option MavenProject → List (ℕ × Coordinate) → List (ℕ × Coordinate)
  schedule_artifact c index (some m) downloads = downloads
  schedule_artifact c index none downloads =
      if c.extension == codes "pom" then downloads else downloads ++ ((index, c) ∷ [])

  -- The model of the selected version, which may be another than that of the candidate.
  unfoldable pub selected_model : Text → EffectivePom → Coordinate → Run EffectivePom
  selected_model version effective own =
      if own.version == version
      then ok effective
      else lift (env.build_coordinate (pom own.group own.artifact own.version))

  module _ (project : EffectivePom) (workspace : List MavenProject) where
    -- The key is selected already: an edge, and its children again if the scope is new to it.
    unfoldable pub revisit :
        Candidate → Coordinate → EffectivePom → ℕ → ResolveState → Run ResolveState
    revisit c coordinate effective index s = do
      linked ← add_edge s.packages c.parent index
      found ← at_index linked index
      let known = ok (record s { packages = linked })
      let widened = do
        packages ← update_at linked index (add_effective_scope c.scope)
        model ← selected_model coordinate.version effective found.coordinate
        ok (record s {
          packages = packages;
          queue = enqueue_children s.queue model c index project.dependency_management;
        })
      if contains found.effective_scopes c.scope then known else widened

    abbrev pub new_package : Candidate → Coordinate → CachedFile → ResolvedPackage
    new_package c coordinate file = record {
      coordinate = coordinate;
      source = file.source;
      pom_checksum = file.checksum;
      artifact_checksum = none;
      artifact_size = none;
      artifact_path = none;
      dependencies = [];
      effective_scopes = c.scope ∷ [];
      selected_parent = c.parent;
    }

    -- The key is new: a package, its download and its children.
    unfoldable pub select :
        Candidate → Coordinate → EffectivePom → Text → ResolveState → Run ResolveState
    select c coordinate effective key s = do
      let local_module = find_module coordinate workspace
      file ← lift (pom_file coordinate local_module)
      let index = length s.packages
      packages ← add_edge (s.packages ++ (new_package c coordinate file ∷ [])) c.parent index
      ok (record {
        queue = enqueue_children s.queue effective c index project.dependency_management;
        packages = packages;
        selected = (key, index) ∷ s.selected;
        downloads = schedule_artifact coordinate index local_module s.downloads;
      })

    abbrev pub choose :
        Candidate → Coordinate → EffectivePom → Option ℕ → ResolveState → Run ResolveState
    choose c coordinate effective (some index) s = revisit c coordinate effective index s
    choose c coordinate effective none s =
        select c coordinate effective (management_key c.dependency) s

    abbrev pub follow :
        Candidate → Coordinate → EffectivePom → Option Coordinate → ResolveState → Run ResolveState
    follow c coordinate effective (some r) s = ok (record s { queue = relocate c r ∷ s.queue })
    follow c coordinate effective none s =
        choose c coordinate effective (lookup (management_key c.dependency) s.selected) s

    -- One round, for a candidate that is taken off the queue.
    unfoldable pub visit : Candidate → ResolveState → Run ResolveState
    visit c s =
        let rest = do
          coordinate ← lift (coordinate c.dependency)
          effective ←
              lift
                (env.build_coordinate (pom coordinate.group coordinate.artifact coordinate.version))
          follow c coordinate effective (moved coordinate effective.relocation) s
        in if is_excluded c then ok s else rest

    -- A round of the `while let` over the queue, and what runs after it.
    abbrev pub next_round :
        (ResolveState → Run ResolveState) → List Candidate → ResolveState → Run ResolveState
    next_round again [] s = ok s
    next_round again (c ∷ queue) s = visit c (record s { queue = queue }) >>= again

    -- The loop, with fuel for its rounds.
    unfoldable pub resolve_loop : ℕ → ResolveState → Run ResolveState
    resolve_loop zero s = if is_empty s.queue then ok s else err exhausted
    resolve_loop (suc fuel) s = next_round (resolve_loop fuel) s.queue s
