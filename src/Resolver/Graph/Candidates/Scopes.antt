-- ===== src/Resolver/Graph/Candidates/Scopes.antt =====
-- crates/jman-resolver/src/graph.rs: the table of `derive_scope` against its effect on class paths.
use jman.Base.{
  Text, codes, text_eq, Bool, true, false, Option, none, some, ◌==◌, ◌&&◌, ◌||◌, arith, ◌≡◌,
}
use jman.Resolver.Graph.Candidates.{derive_scope}

-- A transitive dependency is followed exactly when the scope above it is one of the five roles and
-- its own scope is `compile` or `runtime`.
abbrev pub is_role : Text → Bool
is_role s =
    s == codes "compile"
    || s == codes "runtime"
    || s == codes "provided"
    || s == codes "test"
    || s == codes "processor"

abbrev pub is_transitive : Text → Bool
is_transitive s = s == codes "compile" || s == codes "runtime"

abbrev is_some : Option Text → Bool
is_some none = false
is_some (some s) = true

derive_scope-IsSome : (p c : Text) → is_some (derive_scope p c) ≡ (is_role p && is_transitive c)
unfolding derive_scope
derive_scope-IsSome p c = ground arith

-- The class paths on which a scope puts a package.
abbrev pub on_compile : Text → Bool
on_compile s = s == codes "compile" || s == codes "provided"

abbrev pub on_runtime : Text → Bool
on_runtime s = s == codes "compile" || s == codes "runtime"

abbrev pub on_test : Text → Bool
on_test s = on_runtime s || s == codes "provided" || s == codes "test"

abbrev pub on_processor : Text → Bool
on_processor s = s == codes "processor"

-- A derived scope keeps a transitive dependency on the runtime, test and processor class paths of
-- its parent and on no other, and on the compile class path only where the parent is on it.
pub derive_scope-class_paths :
    (p c : Text) {s : Text}
    → derive_scope p c ≡ some s
    → (on_runtime s ≡ on_runtime p)
      × (on_test s ≡ on_test p)
      × (on_processor s ≡ on_processor p)
      × (on_compile s ≡ (on_compile p && (p == codes "provided" || c == codes "compile")))
unfolding derive_scope
derive_scope-class_paths p c h = ground arith
