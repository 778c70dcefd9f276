-- ===== src/Resolver/Effective/Management/Laws.antt =====
-- crates/jman-resolver/src/effective.rs: the managed dependency that `apply_management` uses.
use jman.Base.{
  text_eq, Option, none, some, List, [], ◌∷◌, ◌++◌, ok, ◌||◌, if◌then◌else◌, arith, ◌≡◌,
  Option-cases, inl, inr, contains, contains-append,
}
use jman.Resolver.Dependency.{Dependency, Exclusion, management_key}
use jman.Resolver.Graph.Candidates.{merge_exclusions, exclusion_eq}
use jman.Resolver.Effective.Collection.{new}
use jman.Resolver.Effective.Collection.Refinement.{
  index_of, index_of-find, at_index-of, find, new-IsIndexed,
}
use jman.Resolver.Effective.Management.{manage, apply_management}

abbrev pub managed_by : Dependency → Option Dependency → Dependency
managed_by d none = d
managed_by d (some m) = manage d m

-- Against the indices of its own list, `apply_management` never indexes out of range, and uses the
-- first managed dependency with the key of the dependency, if there is one.
pub apply_management-find :
    (d : Dependency) (management : List Dependency)
    → apply_management d management (new management).indices
      ≡ ok (managed_by d (find (management_key d) management))
unfolding apply_management
apply_management-find d management =
    elim (Option-cases (index_of 0 (management_key d) management)) [
      | inl e ↦ rw (
        new-IsIndexed management (management_key d),
        e,
        index_of-find 0 (management_key d) management e,
      )
      | inr (i, e) ↦
          let (m, a, f) = at_index-of 0 i (management_key d) management (ground arith) in
          rw (new-IsIndexed management (management_key d), e, a, f)
    ]

-- Managed exclusions are added to those of the dependency, and none is lost.
pub contains-merge_exclusions :
    (own managed : List Exclusion) (e : Exclusion)
    → contains (merge_exclusions own managed) e ≡ (contains own e || contains managed e)
unfolding merge_exclusions
contains-merge_exclusions own [] e = ground arith
contains-merge_exclusions own (m ∷ managed) e = ground (
  arith,
  contains-merge_exclusions (if contains own m then own else own ++ (m ∷ [])) managed e,
  contains-append own (m ∷ []) e,
)
