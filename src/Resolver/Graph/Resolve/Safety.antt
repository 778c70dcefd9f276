-- ===== src/Resolver/Graph/Resolve/Safety.antt =====
-- crates/jman-resolver/src/graph.rs: every round of the resolution loop keeps the invariant, moves
-- no package, and indexes no package out of range.
use jman.Base.{
  ℕ, zero, suc, ◌<◌, Text, text_eq, Option, none, some, List, [], ◌∷◌, ◌++◌, ok, err, arith, ◌≡◌,
  refl, sym, ap, ◌∙◌, length, length-append, length-map, lookup, ◌==◌, Bool-cases, Option-cases,
  inl, inr, contains, is_empty,
}
use mathlib.Core.List.{append-nil, append_assoc, map-append}
use jman.Resolver.Coordinate.{Coordinate, pom}
use jman.Resolver.Dependency.{management_key, coordinate}
use jman.Resolver.Pom.{EffectivePom, MavenProject}
use jman.Resolver.Graph.Types.{ResolvedPackage, Candidate}
use jman.Resolver.Run.{Run, failed, panicked, exhausted, lift, at_index, update_at}
use jman.Resolver.Run.Safe.{Safe, Safe->>=, Safe-lift, at_index-Safe, update_at-Safe}
use jman.Resolver.Graph.Candidates.{enqueue_children}
use jman.Resolver.Graph.Packages.{add_edge}
use jman.Resolver.Graph.Packages.Edges.{add_edge-Safe, origin, origins, IsIndex, length-origins}
use jman.Resolver.Graph.Resolve.{
  Environment, ResolveState, moved, relocate, revisit, select, follow, visit, resolve_loop,
  next_round, selected_model, add_effective_scope, new_package, pom_file, find_module, is_excluded,
}
use jman.Resolver.Graph.Resolve.Invariant.{
  IsValid, IsLater, AllBelow, schedule_artifact-AllBelow, Indexed-lookup, ParentsKnown,
  IsIndex-mono, ParentsKnown-mono, append-ParentsKnown, append-ParentsBelow, children-ParentsKnown,
}

pub IsLater-refl : (s : ResolveState) → IsLater s s
IsLater-refl s = record { more = []; grown = sym (append-nil _); kept = λ key i h. h }

pub IsLater-trans : (s t u : ResolveState) → IsLater s t → IsLater t u → IsLater s u
IsLater-trans s t u a b = record {
  more = a.more ++ b.more;
  grown =
      b.grown ∙ ap (λ os. os ++ b.more) a.grown ∙ append_assoc (origins s.packages) a.more b.more;
  kept = λ key i h. b.kept key i (a.kept key i h);
}

-- The outcome of a round that starts in `s`.
abbrev pub Round : ResolveState → ResolveState → Type 0
Round s t = IsValid t × IsLater s t

-- A state with the same origins of its packages and the same selection.
same-Round :
    (s : ResolveState) (queue : List Candidate) (ps : List ResolvedPackage)
    → IsValid s
    → origins ps ≡ origins s.packages
    → ParentsKnown queue (length s.packages)
    → Round s (record s { queue = queue; packages = ps })
same-Round s queue ps v e k =
    let n = length-origins s.packages ps e in
    (
      record {
        queue_known = rw n k;
        indexed = rw n v.indexed;
        parents_below = rw e v.parents_below;
        downloads_known = rw n v.downloads_known;
      },
      record { more = []; grown = e ∙ sym (append-nil _); kept = λ key i h. h },
    )

-- A state with one more package, under a key that was absent.
added-Round :
    (s : ResolveState) (queue : List Candidate) (ps : List ResolvedPackage) (p : ResolvedPackage)
    (key : Text) (downloads : List (ℕ × Coordinate))
    → IsValid s
    → lookup key s.selected ≡ none
    → IsIndex p.selected_parent (length s.packages)
    → origins ps ≡ origins (s.packages ++ (p ∷ []))
    → ParentsKnown queue (suc (length s.packages))
    → AllBelow downloads (suc (length s.packages))
    → Round s (record {
      queue = queue;
      packages = ps;
      selected = (key, length s.packages) ∷ s.selected;
      downloads = downloads;
    })
unfolding lookup
added-Round s queue ps p key downloads v absent known e k below =
    let n : length ps ≡ suc (length s.packages) =
      omega (arith, length-origins _ ps e, length-append s.packages (p ∷ [])) in
    let grown : origins ps ≡ (origins s.packages ++ (origin p ∷ [])) =
      e ∙ map-append origin s.packages (p ∷ []) in
    (
      record {
        queue_known = rw n k;
        indexed = (n, absent, v.indexed);
        parents_below = rw grown (
            append-ParentsBelow 0 (origins s.packages) (origin p) v.parents_below (
              IsIndex-mono p.selected_parent _ _ (omega (arith, length-map origin s.packages))
                known));
        downloads_known = rw n below;
      },
      record { more = origin p ∷ []; grown = grown; kept = λ other i h. ground arith },
    )

Safe-model :
    (env : Environment) (version : Text) (effective : EffectivePom) (own : Coordinate)
    → Safe (λ _. Unit {0}) (selected_model env version effective own)
unfolding selected_model
Safe-model env version effective own = elim (Bool-cases (own.version == version)) [
  | inl e ↦ rw e tt
  | inr e ↦ rw e (Safe-lift (env.build_coordinate (pom own.group own.artifact own.version)))
]

same-IsLater : (s : ResolveState) (queue : List Candidate) → IsLater s (record s { queue = queue })
same-IsLater s queue = record { more = []; grown = sym (append-nil _); kept = λ key i h. h }

Safe-later :
    (s t : ResolveState) (m : Run ResolveState) → IsLater s t → Safe (Round t) m → Safe (Round s) m
Safe-later s t (ok u) l (v, l') = (v, IsLater-trans s t u l l')
Safe-later s t (err (failed e)) l h = tt
Safe-later s t (err panicked) l h = h
Safe-later s t (err exhausted) l h = tt

module _ (env : Environment) (project : EffectivePom) (workspace : List MavenProject) where
  revisit-Round :
      (c : Candidate) (at : Coordinate) (effective : EffectivePom) (index : ℕ) (s : ResolveState)
      → IsValid s
      → IsIndex c.parent (length s.packages)
      → index < length s.packages
      → Safe (Round s) (revisit env project workspace c at effective index s)
  unfolding revisit enqueue_children
  revisit-Round c at effective index s v known below =
      Safe->>= _ _ (add_edge s.packages c.parent index) _
        (add_edge-Safe s.packages c.parent index known below)
        λ linked e.
          Safe->>= _ _ (at_index linked index) _
            (at_index-Safe linked index (rw (length-origins s.packages linked e) below))
            λ found _. elim (Bool-cases (contains found.effective_scopes c.scope)) [
              | inl old ↦ rw old (same-Round s s.queue linked v e v.queue_known)
              | inr new ↦ rw new (
                  Safe->>= _ _ (update_at linked index (add_effective_scope c.scope)) _
                    (update_at-Safe origin linked index _ (λ _. refl)
                      (rw (length-origins s.packages linked e) below))
                    λ widened e'.
                      Safe->>= _ _ (selected_model env at.version effective found.coordinate) _
                        (Safe-model env at.version effective found.coordinate)
                        λ model _. same-Round s _ widened v (e' ∙ e) (
                          append-ParentsKnown s.queue _ _ v.queue_known (
                            children-ParentsKnown c index project.dependency_management
                              model.dependencies (length s.packages) below)))
            ]

  select-Round :
      (c : Candidate) (at : Coordinate) (effective : EffectivePom) (key : Text) (s : ResolveState)
      → IsValid s
      → IsIndex c.parent (length s.packages)
      → lookup key s.selected ≡ none
      → Safe (Round s) (select env project workspace c at effective key s)
  unfolding select enqueue_children
  select-Round c at effective key s v known absent =
      Safe->>= _ _ (lift (pom_file env at (find_module at workspace))) _
        (Safe-lift (pom_file env at (find_module at workspace)))
        λ file _.
          let p = new_package env project workspace c at file in
          let n = length-append s.packages (p ∷ []) in
          Safe->>= _ _ (add_edge (s.packages ++ (p ∷ [])) c.parent (length s.packages)) _
            (add_edge-Safe (s.packages ++ (p ∷ [])) c.parent (length s.packages)
              (rw n (IsIndex-mono c.parent _ _ (omega arith) known)) (omega (arith, n)))
            λ linked e.
              added-Round s _ linked p key _ v absent known e
                (append-ParentsKnown s.queue _ _
                  (ParentsKnown-mono s.queue _ _ (omega arith) v.queue_known)
                  (children-ParentsKnown c _ project.dependency_management effective.dependencies _
                    (omega arith)))
                (schedule_artifact-AllBelow env at _ (find_module at workspace) s.downloads
                  v.downloads_known)

  follow-Round :
      (c : Candidate) (at : Coordinate) (effective : EffectivePom) (r : Option Coordinate)
      (s : ResolveState)
      → IsValid s
      → IsIndex c.parent (length s.packages)
      → Safe (Round s) (follow env project workspace c at effective r s)
  unfolding relocate
  follow-Round c at effective (some r) s v known =
      same-Round s (relocate c r ∷ s.queue) s.packages v refl (known, v.queue_known)
  follow-Round c at effective none s v known = elim (Option-cases (lookup key s.selected)) [
    | inl absent ↦ rw absent (select-Round c at effective key s v known absent)
    | inr (index, there) ↦ rw there (
        revisit-Round c at effective index s v known
          (Indexed-lookup s.selected _ key index v.indexed there))
  ]
    where
      key : Text
      key = management_key c.dependency

  -- One round neither panics nor leaves the invariant, and moves no package.
  visit-Round :
      (c : Candidate) (s : ResolveState)
      → IsValid s
      → IsIndex c.parent (length s.packages)
      → Safe (Round s) (visit env project workspace c s)
  unfolding visit
  visit-Round c s v known = elim (Bool-cases (is_excluded c)) [
    | inl e ↦ rw e (v, IsLater-refl s)
    | inr e ↦ rw e (
        Safe->>= _ _ (lift (coordinate c.dependency)) _ (Safe-lift (coordinate c.dependency))
          λ at _.
            Safe->>= _ _ (lift (env.build_coordinate (pom at.group at.artifact at.version))) _
              (Safe-lift (env.build_coordinate (pom at.group at.artifact at.version)))
              λ effective _. follow-Round c at effective (moved at effective.relocation) s v known)
  ]

  next_round-Round :
      (again : ResolveState → Run ResolveState) (queue : List Candidate) (s : ResolveState)
      → ((t : ResolveState) → IsValid t → Safe (Round t) (again t))
      → IsValid s
      → ParentsKnown queue (length s.packages)
      → Safe (Round s) (next_round env project workspace again queue s)
  next_round-Round again [] s h v known = (v, IsLater-refl s)
  next_round-Round again (c ∷ queue) s h v known =
      let popped : IsValid (record s { queue = queue }) = record {
        queue_known = known.1;
        indexed = v.indexed;
        parents_below = v.parents_below;
        downloads_known = v.downloads_known;
      } in
      Safe->>= (Round s) (Round s) (visit env project workspace c (record s { queue = queue }))
        again
        (Safe-later s (record s { queue = queue }) _ (same-IsLater s queue)
          (visit-Round c (record s { queue = queue }) popped known.0))
        λ t round. Safe-later s t (again t) round.1 (h t round.0)

  -- From a valid state the loop never indexes a package out of range. A state that it returns is
  -- valid: every package was selected through one that stands before it, the selected keys are
  -- distinct and number the packages. All packages of the state that it began with keep their
  -- place, coordinate and selecting parent, and all selected keys their package.
  pub resolve_loop-Safe :
      (fuel : ℕ) (s : ResolveState)
      → IsValid s
      → Safe (Round s) (resolve_loop env project workspace fuel s)
  unfolding resolve_loop
  resolve_loop-Safe zero s v = elim (Bool-cases (is_empty s.queue)) [
    | inl e ↦ rw e (v, IsLater-refl s)
    | inr e ↦ rw e tt
  ]
  resolve_loop-Safe (suc fuel) s v =
      next_round-Round (resolve_loop env project workspace fuel) s.queue s (resolve_loop-Safe fuel)
        v v.queue_known
