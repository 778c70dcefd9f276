-- ===== src/Resolver/Graph/Classpaths/Members.antt =====
-- crates/jman-resolver/src/graph.rs: which checksums `build_classpaths` lists, and that none is
-- listed twice. Each role is followed on its own, through the test that tells its scopes.
use jman.Base.{
  Text, text_eq, Bool, false, Option, none, some, List, [], ◌∷◌, ◌++◌, ◌==◌, ◌&&◌, ◌||◌, arith, ◌≡◌,
  contains, contains-append, any_of, refl, if◌then◌else◌, ◌∙◌, Bool-cases, inl, inr,
}
use jman.Resolver.Graph.Types.{ResolvedPackage}
use jman.Resolver.Graph.Candidates.Scopes.{on_compile, on_runtime, on_test, on_processor}
use jman.Resolver.Graph.Classpaths.{
  ClassPath, ClassPaths, push_unique, add_scope, add_scopes, add_package, add_packages,
  build_classpaths, empty_paths, empty_path,
}

abbrev pub IsNodup : List Text → Type 0
IsNodup [] = Unit
IsNodup (x ∷ xs) = (contains xs x ≡ false) × IsNodup xs

append-IsNodup :
    (xs : List Text) (x : Text) → IsNodup xs → contains xs x ≡ false → IsNodup (xs ++ (x ∷ []))
append-IsNodup [] x u h = (refl, tt)
append-IsNodup (y ∷ xs) x u h =
    (ground (arith, contains-append xs (x ∷ []) y), append-IsNodup xs x u.1 (ground arith))

-- What was seen is what is listed, nothing twice, and it is what `want` accepts.
record Lists (r : ClassPath) (want : Text → Bool) : Type 0 where
  agrees : (x : Text) → contains r.seen x ≡ contains r.target x
  nodup : IsNodup r.target
  members : (x : Text) → contains r.target x ≡ want x

push_unique-Lists :
    (c : Text) (r : ClassPath) (want : Text → Bool)
    → Lists r want
    → Lists (push_unique c r) (λ x. want x || c == x)
unfolding push_unique
push_unique-Lists c r want h = record {
  agrees = λ x. ground (arith, h.agrees c, h.agrees x, contains-append r.target (c ∷ []) x);
  nodup = ground (arith, h.nodup, h.agrees c, append-IsNodup r.target c);
  members = λ x.
      ground (arith, h.agrees c, h.members x, h.members c, contains-append r.target (c ∷ []) x);
}

Lists-of_eq :
    (r : ClassPath) (want want' : Text → Bool)
    → ((x : Text) → want x ≡ want' x)
    → Lists r want
    → Lists r want'
Lists-of_eq r want want' e h = record {
  agrees = h.agrees;
  nodup = h.nodup;
  members = λ x. h.members x ∙ e x;
}

-- Whether a package with these scopes puts the checksum on a class path.
abbrev pub provides : (Text → Bool) → Text → Option Text → List Text → Bool
provides on x none scopes = false
provides on x (some c) scopes = any_of on scopes && c == x

module _ (role : ClassPaths → ClassPath) (on : Text → Bool)
    (step : (c s : Text) (r : ClassPaths)
      → role (add_scope c s r) ≡ (if on s then push_unique c (role r) else role r)) where
  add_scope-Lists :
      (c s : Text) (r : ClassPaths) (want : Text → Bool)
      → Lists (role r) want
      → Lists (role (add_scope c s r)) (λ x. want x || (on s && c == x))
  add_scope-Lists c s r want h = rw (step c s r) (elim (Bool-cases (on s)) [
    | inl e ↦ rw e (push_unique-Lists c (role r) want h)
    | inr e ↦ rw e (Lists-of_eq (role r) want _ (λ x. ground arith) h)
  ])

  add_scopes-Lists :
      (c : Text) (scopes : List Text) (r : ClassPaths) (want : Text → Bool)
      → Lists (role r) want
      → Lists (role (add_scopes c scopes r)) (λ x. want x || (any_of on scopes && c == x))
  unfolding add_scopes
  add_scopes-Lists c [] r want h = Lists-of_eq (role r) want _ (λ x. ground arith) h
  add_scopes-Lists c (s ∷ scopes) r want h =
      Lists-of_eq _ _ _ (λ x. ground arith)
        (add_scopes-Lists c scopes (add_scope c s r) _ (add_scope-Lists c s r want h))

  add_package-Lists :
      (checksum : Option Text) (scopes : List Text) (r : ClassPaths) (want : Text → Bool)
      → Lists (role r) want
      → Lists (role (add_package checksum scopes r)) (λ x. want x || provides on x checksum scopes)
  unfolding add_package
  add_package-Lists none scopes r want h = Lists-of_eq (role r) want _ (λ x. ground arith) h
  add_package-Lists (some c) scopes r want h = add_scopes-Lists c scopes r want h

  add_packages-Lists :
      (ps : List ResolvedPackage) (r : ClassPaths) (want : Text → Bool)
      → Lists (role r) want
      → Lists
          (role (add_packages ps r))
          (λ x. want x || any_of (λ p. provides on x p.artifact_checksum p.effective_scopes) ps)
  unfolding add_packages
  add_packages-Lists [] r want h = Lists-of_eq (role r) want _ (λ x. ground arith) h
  add_packages-Lists (p ∷ ps) r want h =
      Lists-of_eq _ _ _ (λ x. ground arith)
        (add_packages-Lists ps _ _
          (add_package-Lists p.artifact_checksum p.effective_scopes r want h))

  build_classpaths-Lists :
      (ps : List ResolvedPackage)
      → role empty_paths ≡ empty_path
      → Lists
          (role (build_classpaths ps))
          (λ x. any_of (λ p. provides on x p.artifact_checksum p.effective_scopes) ps)
  unfolding build_classpaths
  build_classpaths-Lists ps e =
      add_packages-Lists ps empty_paths (λ _. false)
        (rw e (record { agrees = λ x. refl; nodup = tt; members = λ x. refl }))

compile-Lists :
    (ps : List ResolvedPackage)
    → Lists
        (build_classpaths ps).compile
        (λ x. any_of (λ p. provides on_compile x p.artifact_checksum p.effective_scopes) ps)
unfolding add_scope
compile-Lists ps =
    build_classpaths-Lists (λ r. r.compile) on_compile (λ c s r. ground arith) ps refl

runtime-Lists :
    (ps : List ResolvedPackage)
    → Lists
        (build_classpaths ps).runtime
        (λ x. any_of (λ p. provides on_runtime x p.artifact_checksum p.effective_scopes) ps)
unfolding add_scope
runtime-Lists ps =
    build_classpaths-Lists (λ r. r.runtime) on_runtime (λ c s r. ground arith) ps refl

test-Lists :
    (ps : List ResolvedPackage)
    → Lists
        (build_classpaths ps).test
        (λ x. any_of (λ p. provides on_test x p.artifact_checksum p.effective_scopes) ps)
unfolding add_scope
test-Lists ps = build_classpaths-Lists (λ r. r.test) on_test (λ c s r. ground arith) ps refl

processor-Lists :
    (ps : List ResolvedPackage)
    → Lists
        (build_classpaths ps).processor
        (λ x. any_of (λ p. provides on_processor x p.artifact_checksum p.effective_scopes) ps)
unfolding add_scope
processor-Lists ps =
    build_classpaths-Lists (λ r. r.processor) on_processor (λ c s r. ground arith) ps refl

-- A checksum is on a class path exactly when some package with that artifact has a scope of that
-- path: compile and provided for compiling, compile and runtime for running, those three and test
-- for testing, processor for annotation processing.
pub contains-build_classpaths :
    (ps : List ResolvedPackage) (x : Text)
    → let paths = build_classpaths ps in
      let on = λ (role : Text → Bool).
        any_of
          (λ (p : ResolvedPackage). provides role x p.artifact_checksum p.effective_scopes)
          ps in
      (contains paths.compile.target x ≡ on on_compile)
      × (contains paths.runtime.target x ≡ on on_runtime)
      × (contains paths.test.target x ≡ on on_test)
      × (contains paths.processor.target x ≡ on on_processor)
contains-build_classpaths ps x = (
  (compile-Lists ps).members x,
  (runtime-Lists ps).members x,
  (test-Lists ps).members x,
  (processor-Lists ps).members x,
)

-- No checksum stands twice on a class path, however many packages and scopes bring it.
pub build_classpaths-IsNodup :
    (ps : List ResolvedPackage)
    → let paths = build_classpaths ps in
      IsNodup paths.compile.target
      × IsNodup paths.runtime.target
      × IsNodup paths.test.target
      × IsNodup paths.processor.target
build_classpaths-IsNodup ps = (
  (compile-Lists ps).nodup,
  (runtime-Lists ps).nodup,
  (test-Lists ps).nodup,
  (processor-Lists ps).nodup,
)
