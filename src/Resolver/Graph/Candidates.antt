-- ===== src/Resolver/Graph/Candidates.antt =====
-- crates/jman-resolver/src/graph.rs: `root_candidates`, `apply_root_management`, `derive_scope` and
-- `enqueue_children`.
pub mod Scopes
use mathlib.Core.Logic.{dite}
use jman.Base.{
  ℕ, Text, codes, text_eq, Eq, Bool, true, false, Option, none, some, List, [], ◌∷◌, ◌++◌, map,
  ◌==◌, if◌then◌else◌, ◌&&◌, ◌||◌, contains, ap,
}
use jman.Resolver.Dependency.{Dependency, Exclusion, management_key}
use jman.Resolver.Pom.{EffectivePom}
use jman.Resolver.Graph.Types.{Candidate}

exclusion_dec : Discrete Exclusion
unfolding text_eq
exclusion_dec a b =
    dite (text_eq.dec a.group b.group)
      (λ p.
        dite (text_eq.dec a.artifact b.artifact)
          (λ q. yes (λ i. record { group = p i; artifact = q i }))
          (λ n. no (λ e. n (ap (λ x. x.artifact) e))))
      (λ n. no (λ e. n (ap (λ x. x.group) e)))

instance unfoldable pub exclusion_eq : Eq Exclusion
unfolding exclusion_dec
exclusion_eq = record { dec = exclusion_dec }

-- `root_candidates`: the dependencies, then the annotation processors.
abbrev pub root_candidate : Text → Dependency → Candidate
root_candidate scope dependency = record {
  dependency = dependency;
  scope = scope;
  active_exclusions = [];
  descendant_exclusions = dependency.exclusions;
  parent = none;
}

unfoldable pub root_candidates : EffectivePom → List Candidate
root_candidates project =
    map (λ d. root_candidate d.scope d) project.dependencies
    ++ map (λ p. root_candidate (codes "processor") p.dependency) project.annotation_processors

-- The loop that adds to `exclusions` those that it lacks.
unfoldable pub merge_exclusions : List Exclusion → List Exclusion → List Exclusion
merge_exclusions exclusions [] = exclusions
merge_exclusions exclusions (e ∷ more) =
    merge_exclusions (if contains exclusions e then exclusions else exclusions ++ (e ∷ [])) more

abbrev find_key : Text → List Dependency → Option Dependency
find_key key [] = none
find_key key (m ∷ management) = if management_key m == key then some m else find_key key management

abbrev or_version : Option Text → Option Text → Option Text
or_version none old = old
or_version (some v) old = some v

abbrev apply_found : Dependency → Option Dependency → Dependency
apply_found d none = d
apply_found d (some m) = record d {
  version = or_version m.version d.version;
  scope = if m.scope_explicit then m.scope else d.scope;
  dependency_type = if m.type_explicit then m.dependency_type else d.dependency_type;
  exclusions = merge_exclusions d.exclusions m.exclusions;
}

-- `apply_root_management`
unfoldable pub apply_root_management : Dependency → List Dependency → Dependency
unfolding merge_exclusions
apply_root_management d management = apply_found d (find_key (management_key d) management)

-- `derive_scope`
unfoldable pub derive_scope : Text → Text → Option Text
derive_scope parent child =
    if parent == codes "compile" && child == codes "compile"
    then some (codes "compile")
    else if (parent == codes "compile" && child == codes "runtime")
        || (parent == codes "runtime" && (child == codes "compile" || child == codes "runtime"))
    then some (codes "runtime")
    else if parent == codes "provided" && (child == codes "compile" || child == codes "runtime")
    then some (codes "provided")
    else if parent == codes "test" && (child == codes "compile" || child == codes "runtime")
    then some (codes "test")
    else if parent == codes "processor" && (child == codes "compile" || child == codes "runtime")
    then some (codes "processor")
    else none

abbrev pub is_optional : Option Bool → Bool
is_optional none = false
is_optional (some b) = b

-- What one dependency of an expanded package adds to the queue.
abbrev pub child_candidate : Candidate → ℕ → Dependency → Option Text → List Candidate
child_candidate c parent d none = []
child_candidate c parent d (some scope) =
    record {
      dependency = d;
      scope = scope;
      active_exclusions = c.descendant_exclusions;
      descendant_exclusions = c.descendant_exclusions ++ d.exclusions;
      parent = some parent;
    }
    ∷ []

abbrev pub child_of : Candidate → ℕ → List Dependency → Dependency → List Candidate
child_of c parent root_management d =
    if is_optional d.optional
    then []
    else let managed = apply_root_management d root_management in
      child_candidate c parent managed (derive_scope c.scope managed.scope)

-- The candidates that `enqueue_children` appends to the queue.
unfoldable pub children : Candidate → ℕ → List Dependency → List Dependency → List Candidate
unfolding apply_root_management derive_scope
children c parent root_management [] = []
children c parent root_management (d ∷ dependencies) =
    child_of c parent root_management d ++ children c parent root_management dependencies

-- `enqueue_children`
unfoldable pub enqueue_children :
    List Candidate → EffectivePom → Candidate → ℕ → List Dependency → List Candidate
unfolding children
enqueue_children queue effective c parent root_management =
    queue ++ children c parent root_management effective.dependencies
