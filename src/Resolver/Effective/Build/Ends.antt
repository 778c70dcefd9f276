-- ===== src/Resolver/Effective/Build/Ends.antt =====
-- crates/jman-resolver/src/effective.rs: what `build_raw` does between its calls of `build_remote`
-- uses no fuel and never indexes out of range.
use jman.Base.{
  ℕ, zero, suc, Text, text_eq, Option, List, [], ◌∷◌, ok, err, not, lookup, arith, ◌≡◌, refl,
  Option-cases, inl, inr,
}
use jman.Base
use jman.Resolver.Error.{Fallible}
use jman.Resolver.Run.{Run, failed, panicked, exhausted, lift}
use jman.Resolver.Dependency.{Dependency, management_key}
use jman.Resolver.Pom.{RawPom, EffectivePom, Properties, AnnotationProcessor}
use jman.Resolver.Effective.Interpolation.{interpolate_dependency, interpolate_required}
use jman.Resolver.Effective.Collection.{DependencyCollection, new, empty, insert_all, replace}
use jman.Resolver.Effective.Collection.Refinement.{
  IsIndexed, new-IsIndexed, replace-refines, at_index-IsIndexed, replace_all-IsIndexed,
  insert_all-IsIndexed, empty-IsIndexed,
}
use jman.Resolver.Effective.Management.{apply_management}
use jman.Resolver.Effective.Build.Stages.{
  assemble, Identity, Managed, management_of, from_parent, import_management, add_dependencies,
  add_repositories, processors_of, required_all,
}

-- The run gives a value or an error of the program: no index out of range, and fuel left.
abbrev pub Ends {ℓ} : {A : Type ℓ} → Run A → Type 0
Ends (ok a) = Unit
Ends (err (failed e)) = Unit
Ends (err panicked) = ⊥
Ends (err exhausted) = ⊥

bind-Ends :
    {A B : Type 0} (r : Run A) (f : A → Run B)
    → Ends r
    → ((a : A) → Ends (f a))
    → Ends (Base.◌>>=◌ r f)
bind-Ends (ok a) f h k = k a
bind-Ends (err (failed e)) f h k = tt
bind-Ends (err panicked) f h k = h
bind-Ends (err exhausted) f h k = h

pub lift-Ends : {A : Type 0} (m : Fallible A) → Ends (lift m)
lift-Ends (ok a) = tt
lift-Ends (err e) = tt

lift_bind-Ends :
    {A B : Type 0} (m : Fallible A) (f : A → Run B)
    → ((a : A) → Ends (f a))
    → Ends (Base.◌>>=◌ (lift m) f)
lift_bind-Ends m f k = bind-Ends (lift m) f (lift-Ends m) k

collect_results-Ends :
    {A B : Type 0} (f : A → Run B) (xs : List A)
    → ((x : A) → Ends (f x))
    → Ends (Base.collect_results f xs)
collect_results-Ends f [] h = tt
collect_results-Ends f (x ∷ xs) h =
    bind-Ends (f x) _ (h x)
      λ y. bind-Ends (Base.collect_results f xs) _ (collect_results-Ends f xs h) λ ys. tt

bind_ok-Ends :
    {A B : Type 0} (r : Run A) (f : A → Run B) (a : A)
    → r ≡ ok a
    → Ends (f a)
    → Ends (Base.◌>>=◌ r f)
bind_ok-Ends r f a e h = rw e h

apply_management-Ends :
    (d : Dependency) (management : DependencyCollection)
    → IsIndexed management
    → Ends (apply_management d management.items management.indices)
unfolding apply_management
apply_management-Ends d management h =
    elim (Option-cases (lookup (management_key d) management.indices)) [
      | inl e ↦ rw e tt
      | inr (i, e) ↦
          let (m, at) = at_index-IsIndexed management (management_key d) i h e in rw (e, at) tt
    ]

import_management-IsIndexed :
    (c : DependencyCollection) (models : List EffectivePom)
    → IsIndexed c
    → IsIndexed (import_management c models)
import_management-IsIndexed c [] h = h
import_management-IsIndexed c (model ∷ models) h =
    import_management-IsIndexed (insert_all c model.dependency_management) models
      (insert_all-IsIndexed c model.dependency_management h)

management_of-IsIndexed :
    (parent : Option EffectivePom) (imported : List EffectivePom) (direct : List Dependency)
    → (management : DependencyCollection) × (management_of parent imported direct ≡ ok management)
      × IsIndexed management
unfolding management_of
management_of-IsIndexed parent imported direct =
    let (local, e, h) =
      replace_all-IsIndexed (import_management empty imported) direct
        (import_management-IsIndexed empty imported empty-IsIndexed) in
    let above = from_parent (λ m. m.dependency_management) [] parent in
    let (management, f, k) = replace_all-IsIndexed (new above) local.items (new-IsIndexed above) in
    (management, rw (e, f) refl, k)

module _ (properties : Properties) (management : DependencyCollection)
    (indexed : IsIndexed management) where
  add_dependencies-Ends :
      (c : DependencyCollection) (ds : List Dependency)
      → IsIndexed c
      → Ends (add_dependencies properties management c ds)
  unfolding add_dependencies
  add_dependencies-Ends c [] h = tt
  add_dependencies-Ends c (d ∷ ds) h = lift_bind-Ends (interpolate_dependency d properties) _ λ own.
      bind-Ends (apply_management own management.items management.indices) _
        (apply_management-Ends own management indexed)
        λ managed.
          let (next, e, binds) = replace-refines c managed h in
          bind_ok-Ends (replace c managed) _ next e
            (add_dependencies-Ends next ds (λ key. (binds key).0))

  processors_of-Ends :
      (ps : List AnnotationProcessor) → Ends (processors_of properties management ps)
  unfolding processors_of
  processors_of-Ends ps = collect_results-Ends _ ps λ p.
      lift_bind-Ends (interpolate_dependency p.dependency properties) _ λ own.
        bind-Ends (apply_management own management.items management.indices) _
          (apply_management-Ends own management indexed) λ managed. tt

pub assemble-Ends :
    (raw : RawPom) (parent : Option EffectivePom) (id : Identity) (managed : Managed)
    (imported : List EffectivePom)
    → Ends (assemble raw parent id managed imported)
unfolding assemble
assemble-Ends raw parent id managed imported =
    let (management, e, indexed) = management_of-IsIndexed parent imported managed.direct in
    let above = from_parent (λ m. m.dependencies) [] parent in
    bind_ok-Ends (management_of parent imported managed.direct) _ management e (
      bind-Ends (add_dependencies id.properties management (new above) raw.dependencies) _
        (add_dependencies-Ends id.properties management indexed (new above) raw.dependencies
          (new-IsIndexed above))
        λ dependencies.
          lift_bind-Ends (add_repositories id.properties _ raw.repositories) _ λ repositories.
            bind-Ends (processors_of id.properties management raw.annotation_processors) _
              (processors_of-Ends id.properties management indexed raw.annotation_processors)
              λ processors.
                lift_bind-Ends (required_all id.properties raw.compiler_args) _ λ compiler_args.
                  lift_bind-Ends (required_all id.properties raw.modules) _ λ modules.
                    lift_bind-Ends (interpolate_required raw.packaging id.properties) _
                      λ packaging. tt)
