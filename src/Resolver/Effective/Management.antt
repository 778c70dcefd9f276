-- ===== src/Resolver/Effective/Management.antt =====
-- crates/jman-resolver/src/effective.rs: `apply_management`, what a managed dependency gives to a
-- declared one.
pub mod Laws
use jman.Base.{ℕ, Text, text_eq, Bool, Option, none, some, List, ok, ◌>>=◌, if◌then◌else◌, lookup}
use jman.Resolver.Run.{Run, at_index}
use jman.Resolver.Dependency.{Dependency, management_key}
use jman.Resolver.Graph.Candidates.{merge_exclusions}

abbrev or_given {ℓ} : {A : Type ℓ} → Option A → Option A → Option A
or_given none managed = managed
or_given (some own) managed = some own

-- The fields that `apply_management` sets, from the managed dependency that was found.
unfoldable pub manage : Dependency → Dependency → Dependency
manage d managed = record d {
  version = or_given d.version managed.version;
  scope = if d.scope_explicit then d.scope else managed.scope;
  dependency_type = if d.type_explicit then d.dependency_type else managed.dependency_type;
  optional = or_given d.optional managed.optional;
  exclusions = merge_exclusions d.exclusions managed.exclusions;
}

abbrev pub manage_at : Dependency → List Dependency → Option ℕ → Run Dependency
manage_at d management none = ok d
manage_at d management (some index) = do managed ← at_index management index; ok (manage d managed)

unfoldable pub apply_management : Dependency → List Dependency → List (Text × ℕ) → Run Dependency
unfolding manage at_index lookup management_key
apply_management d management indices = manage_at d management (lookup (management_key d) indices)
