-- ===== src/Config/Lockfile/Laws.antt =====
-- crates/jman-config/src/lib.rs: which lockfiles are valid, exactly.
use jman.Base.{
  ℕ, zero, suc, Text, codes, text_eq, Bool, true, false, Option, none, some, List, [], ◌∷◌, ◌==◌,
  ◌=ℕ=◌, ◌&&◌, not, all_of, any_of, length, for_each, arith, ◌≡◌, refl, sym, starts_with,
}
use jman.Config.Error.{accepted, accepted->>}
use jman.Config.Names.{validate_ga, is_absolute}
use jman.Config.Lockfile.{
  LockedPackage, LockedWorkspaceDependency, Lockfile, has_sha256_prefix, check_package, has_edge,
  check_edge, check_edges, validate,
}

abbrev pub take : ℕ → Text → Text
take zero s = []
take (suc n) [] = []
take (suc n) (c ∷ s) = c ∷ take n s

starts_with-take : (p s : Text) → starts_with p s ≡ (take (length p) s == p)
starts_with-take [] s = ground arith
starts_with-take (c ∷ p) [] = ground arith
starts_with-take (c ∷ p) (d ∷ s) = ground (arith, starts_with-take p s)

-- The first seven characters of a hash name its algorithm.
abbrev pub names_algorithm : Text → Bool
names_algorithm hash = take 7 hash == codes "sha256:"

abbrev pub names_algorithm? : Option Text → Bool
names_algorithm? none = true
names_algorithm? (some hash) = names_algorithm hash

abbrev pub dependency_scopes : List Text
dependency_scopes = codes "compile" ∷ codes "runtime" ∷ codes "provided" ∷ codes "test" ∷ []

abbrev pub has_checksums : LockedPackage → Bool
has_checksums p = names_algorithm p.pom_checksum && names_algorithm? p.artifact_checksum

has_sha256_prefix-algorithm : (hash : Text) → has_sha256_prefix hash ≡ names_algorithm hash
has_sha256_prefix-algorithm hash = starts_with-take (codes "sha256:") hash

accepted-package : (p : LockedPackage) → accepted (check_package p) ≡ has_checksums p
accepted-package p = checksums p.artifact_checksum
  where
    checksums :
        (o : Option Text)
        → accepted (check_package (record p { artifact_checksum = o }))
          ≡ (names_algorithm p.pom_checksum && names_algorithm? o)
    checksums none = rw (sym (has_sha256_prefix-algorithm p.pom_checksum)) (ground arith)
    checksums (some hash) =
        rw
          (sym (has_sha256_prefix-algorithm p.pom_checksum), sym (has_sha256_prefix-algorithm hash))
          (ground arith)

accepted-packages :
    (ps : List LockedPackage) → accepted (for_each check_package ps) ≡ all_of has_checksums ps
accepted-packages [] = refl
accepted-packages (p ∷ ps) =
    rw
      (
        accepted->> (check_package p) (for_each check_package ps),
        accepted-package p,
        accepted-packages ps,
      )
      refl

-- The same dependency of the workspace, in the same scope.
abbrev pub same_edge : LockedWorkspaceDependency → LockedWorkspaceDependency → Bool
same_edge d e = d.scope == e.scope && d.coordinate == e.coordinate

-- No two of them are the same.
abbrev pub are_distinct : List LockedWorkspaceDependency → Bool
are_distinct [] = true
are_distinct (d ∷ more) = not (any_of (same_edge d) more) && are_distinct more

abbrev are_new : List (Text × Text) → List LockedWorkspaceDependency → Bool
are_new seen = all_of (λ d. not (has_edge seen d.scope d.coordinate))

are_new-insert :
    (seen : List (Text × Text)) (d : LockedWorkspaceDependency)
    (ds : List LockedWorkspaceDependency)
    → are_new ((d.scope, d.coordinate) ∷ seen) ds
      ≡ (not (any_of (same_edge d) ds) && are_new seen ds)
are_new-insert seen d [] = refl
are_new-insert seen d (e ∷ ds) = ground (arith, are_new-insert seen d ds)

-- The conditions of the first edge and of the others, sorted by kind.
regroup :
    (sound known others again fresh distinct : Bool)
    → ((sound && not known) && (others && (not again && fresh) && distinct))
      ≡ ((sound && others) && (not known && fresh) && (not again && distinct))
regroup true true true again fresh distinct = refl
regroup true true false again fresh distinct = refl
regroup true false true true true distinct = refl
regroup true false true true false distinct = refl
regroup true false true false fresh distinct = refl
regroup true false false again fresh distinct = refl
regroup false known others again fresh distinct = refl

are_new-empty : (ds : List LockedWorkspaceDependency) → are_new [] ds ≡ true
are_new-empty [] = refl
are_new-empty (d ∷ ds) = are_new-empty ds

module _ (is_whitespace : ℕ → Bool) where
  abbrev pub is_relative_edge : LockedWorkspaceDependency → Bool
  is_relative_edge d =
      accepted (validate_ga d.coordinate)
      && any_of (λ scope. d.scope == scope) dependency_scopes
      && not (all_of is_whitespace d.version)
      && not (all_of is_whitespace d.path)
      && not (is_absolute d.path)

  accepted-edge :
      (seen : List (Text × Text)) (d : LockedWorkspaceDependency)
      → accepted (check_edge is_whitespace seen d)
        ≡ (is_relative_edge d && not (has_edge seen d.scope d.coordinate))
  accepted-edge seen d = ground arith

  accepted-edges :
      (seen : List (Text × Text)) (ds : List LockedWorkspaceDependency)
      → accepted (check_edges is_whitespace seen ds)
        ≡ (all_of is_relative_edge ds && are_new seen ds && are_distinct ds)
  unfolding check_edges
  accepted-edges seen [] = refl
  accepted-edges seen (d ∷ ds) =
      rw
        (
          accepted->> (check_edge is_whitespace seen d)
              (check_edges is_whitespace ((d.scope, d.coordinate) ∷ seen) ds),
          accepted-edge seen d,
          accepted-edges ((d.scope, d.coordinate) ∷ seen) ds,
          are_new-insert seen d ds,
        )
        (regroup (is_relative_edge d) (has_edge seen d.scope d.coordinate)
          (all_of is_relative_edge ds) (any_of (same_edge d) ds) (are_new seen ds)
          (are_distinct ds))

  abbrev pub is_valid : Lockfile → Bool
  is_valid l =
      l.lock_version =ℕ= 3
      && names_algorithm l.manifest_hash
      && names_algorithm l.workspace_hash
      && not (all_of is_whitespace l.platform)
      && all_of has_checksums l.packages
      && all_of is_relative_edge l.workspace_dependencies
      && are_distinct l.workspace_dependencies

  -- A lockfile is accepted exactly when its version is 3, the hashes of the manifest and of the
  -- workspace and the checksums of the packages begin with `sha256:`, the platform is not blank, and
  -- the workspace dependencies have a coordinate that `validate_ga` accepts, one of four scopes, a
  -- version and a path that is relative and not blank, no two with the same scope and coordinate.
  pub accepted-validate : (l : Lockfile) → accepted (validate is_whitespace l) ≡ is_valid l
  unfolding validate
  accepted-validate l = ground (
    arith,
    has_sha256_prefix-algorithm l.manifest_hash,
    has_sha256_prefix-algorithm l.workspace_hash,
    accepted-packages l.packages,
    accepted-edges [] l.workspace_dependencies,
    are_new-empty l.workspace_dependencies,
    accepted->> (for_each check_package l.packages)
        (check_edges is_whitespace [] l.workspace_dependencies),
  )
