-- ===== src/Resolver/Effective/Build/Termination.antt =====
-- crates/jman-resolver/src/effective.rs: the recursion over parents and imports ends, since a
-- coordinate that is being built cannot be built again below itself.
use jman.Base.{
  ℕ, zero, suc, ◌+◌, ◌≤◌, ◌<◌, Text, text_eq, true, false, Option, none, some, List, [], ◌∷◌, ◌++◌,
  ok, err, if◌then◌else◌, contains, contains-append, lookup, length, arith, ◌≡◌, Bool-cases,
  Option-cases, Result-cases, inl, inr,
}
use jman.Resolver.Error.{ResolverError}
use jman.Resolver.Run.{Run, failed, panicked, exhausted, lift}
use jman.Resolver.Coordinate.{Coordinate, display}
use jman.Resolver.Pom.{RawPom, EffectivePom}
use jman.Resolver.Effective.Build.Stages.{Host, parent_coordinate, identity_of, split_management}
use jman.Resolver.Effective.Build.{
  Source, Cache, Builder, continue, give, build_imports, build_parent, build_raw, with_context,
  load, build_fresh, build_remote, build_coordinate,
}
use jman.Resolver.Effective.Build.Ends.{Ends, lift-Ends, assemble-Ends}

continue-Ends :
    {A B : Type 0} (r : Run (A × Cache)) (f : A → Builder B)
    → Ends r
    → ((a : A) (cache : Cache) → Ends (f a cache))
    → Ends (continue r f)
continue-Ends (ok (a, cache)) f h k = k a cache
continue-Ends (err (failed e)) f h k = tt
continue-Ends (err panicked) f h k = h
continue-Ends (err exhausted) f h k = h

give-Ends : {A : Type 0} (r : Run A) (cache : Cache) → Ends r → Ends (give r cache)
give-Ends (ok a) cache h = tt
give-Ends (err (failed e)) cache h = tt
give-Ends (err panicked) cache h = h
give-Ends (err exhausted) cache h = h

with_context-Ends : {A : Type 0} (key : Text) (r : Run A) → Ends r → Ends (with_context key r)
with_context-Ends key (ok a) h = tt
with_context-Ends key (err (failed e)) h = tt
with_context-Ends key (err panicked) h = h
with_context-Ends key (err exhausted) h = h

module _ (remote : Coordinate → Builder EffectivePom)
    (ends : (c : Coordinate) (cache : Cache) → Ends (remote c cache)) where
  build_imports-Ends : (cs : List Coordinate) (cache : Cache) → Ends (build_imports remote cs cache)
  build_imports-Ends [] cache = tt
  build_imports-Ends (c ∷ cs) cache =
      continue-Ends (remote c cache) _ (ends c cache) λ model cache'.
        continue-Ends (build_imports remote cs cache') _ (build_imports-Ends cs cache')
          λ models cache''. tt

  build_parent-Ends : (o : Option Coordinate) (cache : Cache) → Ends (build_parent remote o cache)
  build_parent-Ends none cache = tt
  build_parent-Ends (some c) cache =
      continue-Ends (remote c cache) _ (ends c cache) λ model cache'. tt

  build_raw-Ends :
      (host : Host) (raw : RawPom) (cache : Cache) → Ends (build_raw host remote raw cache)
  unfolding build_raw
  build_raw-Ends host raw cache =
      continue-Ends (build_parent remote (parent_coordinate raw.properties raw.parent) cache) _
        (build_parent-Ends _ cache)
        λ parent c1.
          continue-Ends (give (lift (identity_of host raw parent)) c1) _
            (give-Ends _ c1 (lift-Ends (identity_of host raw parent)))
            λ id c2.
              continue-Ends
                (give (lift (split_management id.properties raw.dependency_management)) c2) _
                (give-Ends _ c2
                  (lift-Ends (split_management id.properties raw.dependency_management)))
                λ managed c3.
                  continue-Ends (build_imports remote managed.imports c3) _
                    (build_imports-Ends managed.imports c3)
                    λ imported c4. give-Ends _ c4 (assemble-Ends raw parent id managed imported)

  build_fresh-Ends :
      (source : Source) (c : Coordinate) (cache : Cache) → Ends (build_fresh source remote c cache)
  unfolding build_fresh
  build_fresh-Ends source c cache =
      continue-Ends (give (lift (load source c)) cache) _
        (give-Ends _ cache (lift-Ends (load source c)))
        λ raw c1.
          continue-Ends (with_context (display c) (build_raw source.host remote raw c1)) _
            (with_context-Ends _ _ (build_raw-Ends source.host raw c1)) λ model c2. tt

-- How many of the coordinates are not on the stack.
unseen : List Text → List Text → ℕ
unseen [] stack = 0
unseen (u ∷ universe) stack = (if contains stack u then 0 else 1) + unseen universe stack

unseen_mono :
    (universe stack : List Text) (key : Text)
    → unseen universe (stack ++ (key ∷ [])) ≤ unseen universe stack
unfolding unseen
unseen_mono [] stack key = omega arith
unseen_mono (u ∷ universe) stack key =
    ground (arith, unseen_mono universe stack key, contains-append stack (key ∷ []) u)

unseen-lt :
    (universe stack : List Text) (key : Text)
    → contains universe key ≡ true
    → contains stack key ≡ false
    → unseen universe (stack ++ (key ∷ [])) < unseen universe stack
unfolding unseen
unseen-lt [] stack key h k = cc
unseen-lt (u ∷ universe) stack key h k = ground (
  arith,
  unseen-lt universe stack key,
  unseen_mono universe stack key,
  contains-append stack (key ∷ []) u,
)

unseen-le : (universe stack : List Text) → unseen universe stack ≤ length universe
unfolding unseen
unseen-le [] stack = omega arith
unseen-le (u ∷ universe) stack = ground (arith, unseen-le universe stack)

build_fresh_unloaded-Ends :
    (source : Source) (remote : Coordinate → Builder EffectivePom) (c : Coordinate) (cache : Cache)
    {e : ResolverError}
    → source.load_pom c ≡ err e
    → Ends (build_fresh source remote c cache)
unfolding build_fresh
build_fresh_unloaded-Ends source remote c cache h = rw (h, Ends) tt

module _ (source : Source) (universe : List Text)
    (listed : (c : Coordinate) (xml : Text)
      → source.load_pom c ≡ ok xml
      → contains universe (display c) ≡ true) where
  build_remote-Ends :
      (fuel : ℕ) (stack : List Text) (c : Coordinate) (cache : Cache)
      → unseen universe stack < fuel
      → Ends (build_remote source fuel stack c cache)
  unfolding build_remote
  build_remote-Ends zero stack c cache h = absurd (omega arith)
  build_remote-Ends (suc fuel) stack c cache h = elim (Option-cases (lookup (display c) cache)) [
    | inr (model, e) ↦ rw e tt
    | inl e ↦ rw e (elim (Bool-cases (contains stack (display c))) [
      | inl old ↦ rw old tt
      | inr new ↦ rw new (elim (Result-cases (source.load_pom c)) [
        | inr (failure, f) ↦ build_fresh_unloaded-Ends source _ c cache f
        | inl (xml, loaded) ↦
            build_fresh-Ends (build_remote source fuel (stack ++ (display c ∷ [])))
              (λ d cache'.
                build_remote-Ends fuel (stack ++ (display c ∷ [])) d cache'
                  (omega (arith, unseen-lt universe stack (display c) (listed c xml loaded) new)))
              source c cache
      ])
    ])
  ]

  -- Where only finitely many coordinates have a POM, building the model of a coordinate ends within
  -- as many nested calls and one more, whatever the parents and imports: it gives a model or an error
  -- of the program, never indexes out of range and never runs out of depth.
  pub build_coordinate-Ends :
      (fuel : ℕ) (c : Coordinate) (cache : Cache)
      → length universe < fuel
      → Ends (build_coordinate source fuel c cache)
  unfolding build_coordinate
  build_coordinate-Ends fuel c cache h =
      build_remote-Ends fuel [] c cache (omega (arith, unseen-le universe []))
