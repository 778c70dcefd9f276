-- ===== src/Resolver/Graph/Artifacts/Outcomes.antt =====
-- crates/jman-resolver/src/graph.rs: the whole of `resolve_in_workspace` indexes no package out of
-- range, and what it returns is well formed.
use jman.Base.{
  codes, ℕ, Bool, true, List, [], ◌∷◌, ok, err, arith, ◌≡◌, refl, ◌∙◌, length, map, all_of,
  collect_results, Result-cases, inl, inr,
}
use jman.Resolver.Coordinate.{Coordinate}
use jman.Resolver.Dependency.{Dependency}
use jman.Resolver.Pom.{EffectivePom, MavenProject, AnnotationProcessor}
use jman.Resolver.Graph.Types.{ResolvedPackage}
use jman.Resolver.Graph.Candidates.{root_candidates, root_candidate}
use jman.Resolver.Run.{Run, failed, panicked, exhausted, lift, update_at}
use jman.Resolver.Run.Safe.{Safe, Safe->>=, update_at-Safe}
use jman.Resolver.Graph.Packages.Edges.{origin, origins, length-origins}
use jman.Resolver.Graph.Classpaths.{build_classpaths}
use jman.Resolver.Graph.Resolve.{Environment, resolve_loop}
use jman.Resolver.Graph.Resolve.Invariant.{
  IsValid, ParentsKnown, ParentsBelow, AllBelow, append-ParentsKnown,
}
use jman.Resolver.Graph.Resolve.Safety.{resolve_loop-Safe}
use jman.Resolver.Graph.Artifacts.{
  Artifact, insert_artifact, sort_artifacts, with_artifact, store_artifacts, download,
  finish_artifacts, initial_state, resolve_in_workspace,
}

insert_artifact-AllBelow :
    (a : Artifact) (files : List Artifact) (n : ℕ)
    → AllBelow (a ∷ files) n
    → AllBelow (insert_artifact a files) n
unfolding insert_artifact
insert_artifact-AllBelow a [] n h = h
insert_artifact-AllBelow a (b ∷ files) n h = ground (arith, insert_artifact-AllBelow a files n)

sort_artifacts-AllBelow :
    (files : List Artifact) (n : ℕ) → AllBelow files n → AllBelow (sort_artifacts files) n
unfolding sort_artifacts
sort_artifacts-AllBelow [] n h = h
sort_artifacts-AllBelow (a ∷ files) n h =
    insert_artifact-AllBelow a (sort_artifacts files) n
      (ground (arith, sort_artifacts-AllBelow files n))

store_artifacts-Safe :
    (files : List Artifact) (ps : List ResolvedPackage)
    → AllBelow files (length ps)
    → Safe (λ qs. origins qs ≡ origins ps) (store_artifacts files ps)
unfolding store_artifacts
store_artifacts-Safe [] ps h = refl
store_artifacts-Safe ((index, file) ∷ files) ps h =
    Safe->>= _ _ (update_at ps index (with_artifact file)) _
      (update_at-Safe origin ps index _ (λ _. refl) (ground arith))
      λ qs e.
        Safe-eq qs (store_artifacts files qs) e
          (store_artifacts-Safe files qs (rw (length-origins ps qs e) (ground arith)))
  where
    Safe-eq :
        (qs : List ResolvedPackage) (m : Run (List ResolvedPackage))
        → origins qs ≡ origins ps
        → Safe (λ rs. origins rs ≡ origins qs) m
        → Safe (λ rs. origins rs ≡ origins ps) m
    Safe-eq qs (ok rs) e k = k ∙ e
    Safe-eq qs (err (failed f)) e k = tt
    Safe-eq qs (err panicked) e k = k
    Safe-eq qs (err exhausted) e k = tt

module _ (env : Environment) where
  download-AllBelow :
      (ds : List (ℕ × Coordinate)) (n : ℕ)
      → AllBelow ds n
      → Safe (λ files. AllBelow files n) (lift (collect_results (download env) ds))
  download-AllBelow [] n h = h
  download-AllBelow ((index, c) ∷ ds) n h = elim (Result-cases (env.fetch c)) [
    | inr (e, f) ↦ rw f tt
    | inl (file, f) ↦ rw f (elim (Result-cases (collect_results (download env) ds)) [
      | inr (e, g) ↦ rw g tt
      | inl (files, g) ↦
          let rest : AllBelow files n = rw g at (download-AllBelow ds n (ground arith)) in
          rw g (ground (arith, rest))
    ])
  ]

  root_candidates-ParentsKnown : (project : EffectivePom) → ParentsKnown (root_candidates project) 0
  unfolding root_candidates
  root_candidates-ParentsKnown project =
      append-ParentsKnown _ _ 0 (dependencies project.dependencies)
        (processors project.annotation_processors)
    where
      dependencies :
          (ds : List Dependency) → ParentsKnown (map (λ d. root_candidate d.scope d) ds) 0
      dependencies [] = tt
      dependencies (d ∷ ds) = (tt, dependencies ds)

      processors :
          (ps : List AnnotationProcessor)
          → ParentsKnown (map (λ p. root_candidate (codes "processor") p.dependency) ps) 0
      processors [] = tt
      processors (p ∷ ps) = (tt, processors ps)

  pub initial_state-IsValid : (project : EffectivePom) → IsValid (initial_state env project)
  initial_state-IsValid project = record {
    queue_known = root_candidates-ParentsKnown project;
    indexed = refl;
    parents_below = tt;
    downloads_known = refl;
  }

  -- The tasks that complete are some of those that were started.
  abbrev pub JoinsStarted : Type 0
  JoinsStarted =
      (p : ℕ × Coordinate → Bool) (ds : List (ℕ × Coordinate))
      → all_of p ds ≡ true
      → all_of p (env.completion_order ds) ≡ true

  finish_artifacts-Safe :
      (ds : List (ℕ × Coordinate)) (ps : List ResolvedPackage)
      → JoinsStarted
      → AllBelow ds (length ps)
      → Safe (λ qs. origins qs ≡ origins ps) (finish_artifacts env ds ps)
  unfolding finish_artifacts
  finish_artifacts-Safe ds ps joins h =
      Safe->>= _ _ (lift (collect_results (download env) (env.completion_order ds))) _
        (download-AllBelow (env.completion_order ds) (length ps) (joins _ ds h))
        λ files below.
          store_artifacts-Safe (sort_artifacts files) ps (sort_artifacts-AllBelow files _ below)

  -- A resolution never indexes a package out of range, where the downloads that complete are some
  -- of those that were started. In the graph that it returns every package was selected by the
  -- project or through a package that stands before it, and the class paths are those of its
  -- packages.
  pub resolve_in_workspace-Safe :
      (fuel : ℕ) (project : EffectivePom) (workspace : List MavenProject)
      → JoinsStarted
      → Safe
          (λ graph.
            ParentsBelow 0 (origins graph.packages)
            × (graph.class_paths ≡ build_classpaths graph.packages))
          (resolve_in_workspace env fuel project workspace)
  unfolding resolve_in_workspace
  resolve_in_workspace-Safe fuel project workspace joins =
      Safe->>= _ _ (resolve_loop env project workspace fuel (initial_state env project)) _
        (resolve_loop-Safe env project workspace fuel (initial_state env project)
          (initial_state-IsValid project))
        λ s round.
          Safe->>= _ _ (finish_artifacts env s.downloads s.packages) _
            (finish_artifacts-Safe s.downloads s.packages joins round.0.downloads_known)
            λ packages e. (rw e round.0.parents_below, refl)
