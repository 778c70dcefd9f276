-- ===== src/Build/Workspace/Closed.antt =====
-- crates/jman-build/src/lib.rs: the modules that are discovered depend on one another alone.
use jman.Base.{
  ℕ, zero, suc, ◌<◌, Text, text_eq, Bool, true, Option, none, some, List, [], ◌∷◌, ◌=ℕ=◌, not, ◌==◌,
  contains, lookup, length, all_of, all_of-append, arith, ◌≡◌, refl, ap, sym,
}
use jman.Build.Workspace.{
  Scope, compile, runtime, provided, test, WorkspaceDependency, DependencySpec, spec_path, Manifest,
  Module,
}
use jman.Build.Workspace.Discovery.{
  Indices, scope_at, add_target, add_path, add_entry, add_entries, discover_workspace_dependencies,
  push_children, discover_raw, indices_from, coordinates_of, connect, discover_modules,
}
use jman.Build.Modules.{topological_layers}
use jman.Build.Modules.Layers.{Orders, topological_layers-Orders}
use jman.Build.Workspace.Runs.{Yields, Yields->>=, Yields-mono, Yields-require, Yields-or_failed}
use jman.Build.Workspace.Places.{
  AllBelow, AllAt, HasNew, coordinate_at-lt, or_else-AllBelow, AllAt-indices_from,
  AllBelow-indices_from, length-coordinates_of, unseen, unseen_nothing, unseen-cons,
}
use jman.Build.Workspace.Others.{
  AreOther, sort_by_index-AreOther, is_other, AllClosed-in_range, AllClosed,
}

-- The modules put in order, each of which depends on others of the list alone.
abbrev pub IsOrdered : List Module → Type 0
IsOrdered modules =
    AllClosed (length modules) 0 modules × Orders modules [] (topological_layers modules)

AllClosed-IsOrdered :
    (modules : List Module) → AllClosed (length modules) 0 modules → IsOrdered modules
AllClosed-IsOrdered modules c =
    (c, topological_layers-Orders modules (AllClosed-in_range (length modules) 0 modules c))

module _ (canonical : Text → Text → Option Text) (starts_with : Text → Text → Bool)
    (read_manifest : Text → Option Manifest) where
  module _ (directory : Text) (manifest : Manifest) (root : Text) (indices : Indices)
      (coordinates : List Text) (n own : ℕ) (below : AllBelow n indices)
      (sized : length coordinates ≡ n) (placed : lookup directory indices ≡ some own) where
    add_target-AreOther :
        (scope : Scope) (coordinate : Text) (index : ℕ) (found : List WorkspaceDependency)
        (old : Option Scope)
        → is_other n own (record { index = index; scope = scope }) ≡ true
        → AreOther n own found
        → Yields (AreOther n own) (add_target scope coordinate index found old)
    add_target-AreOther scope coordinate index found none h k =
        ground (
          arith,
          all_of-append (is_other n own) found (record { index = index; scope = scope } ∷ []),
        )
    add_target-AreOther scope coordinate index found (some previous) h k = tt

    add_path-AreOther :
        (scope : Scope) (coordinate relative : Text) (found : List WorkspaceDependency)
        → AreOther n own found
        → Yields (AreOther n own) (
            add_path canonical starts_with read_manifest directory manifest root indices coordinates
              scope coordinate relative found)
    unfolding add_path
    add_path-AreOther scope coordinate relative found k =
        Yields->>= (λ p. canonical directory relative ≡ some p) (AreOther n own) _ _
          (Yields-or_failed relative (canonical directory relative))
          (λ dependency _.
            Yields->>= (λ _. starts_with dependency root ≡ true) (AreOther n own) _ _
              (Yields-require (starts_with dependency root) _)
              (λ _ _.
                Yields->>= (λ i. i < n) (AreOther n own) _ _
                  (or_else-AllBelow n indices dependency _ below)
                  (λ index b. rw placed (
                    Yields->>= (λ _. not (index =ℕ= own) ≡ true) (AreOther n own) _ _
                      (Yields-require (not (index =ℕ= own)) _)
                      (λ _ other.
                        Yields->>= (λ _. Unit {0}) (AreOther n own) _ _
                          (coordinate_at-lt coordinates index (omega (arith, b, sized)))
                          (λ expected _.
                            Yields->>= (λ _. (coordinate == expected) ≡ true) (AreOther n own) _ _
                              (Yields-require (coordinate == expected) _)
                              (λ _ _.
                                add_target-AreOther scope coordinate index found
                                  (scope_at index found) (ground arith) k)))))))

    add_entries-AreOther :
        (scope : Scope) (entries : List (Text × DependencySpec)) (found : List WorkspaceDependency)
        → AreOther n own found
        → Yields (AreOther n own) (
            add_entries canonical starts_with read_manifest directory manifest root indices
              coordinates scope entries found)
    unfolding add_entries
    add_entries-AreOther scope [] found k = k
    add_entries-AreOther scope ((coordinate, specification) ∷ entries) found k =
        Yields->>= (AreOther n own) (AreOther n own) _ _ (entry (spec_path specification))
          (λ more l. add_entries-AreOther scope entries more l)
      where
        entry :
            (o : Option Text)
            → Yields (AreOther n own) (
                add_entry canonical starts_with read_manifest directory manifest root indices
                  coordinates scope coordinate o found)
        entry none = k
        entry (some relative) = add_path-AreOther scope coordinate relative found k

    discover-AreOther : Yields (AreOther n own) (
        discover_workspace_dependencies canonical starts_with read_manifest directory manifest root
          indices coordinates)
    unfolding discover_workspace_dependencies
    discover-AreOther =
        Yields->>= (AreOther n own) (AreOther n own) _ _
          (add_entries-AreOther compile manifest.dependencies.compile_entries [] refl)
          (λ a ha.
            Yields->>= (AreOther n own) (AreOther n own) _ _
              (add_entries-AreOther runtime manifest.dependencies.runtime_entries a ha)
              (λ b hb.
                Yields->>= (AreOther n own) (AreOther n own) _ _
                  (add_entries-AreOther provided manifest.dependencies.provided_entries b hb)
                  (λ c hc.
                    Yields->>= (AreOther n own) (AreOther n own) _ _
                      (add_entries-AreOther test manifest.dependencies.test_entries c hc)
                      (λ d hd. sort_by_index-AreOther n own d hd))))

  abbrev ConnectsTo : ℕ → ℕ → List (Text × Manifest) → List Module → Type 0
  ConnectsTo n k raw modules = AllClosed n k modules × (length modules ≡ length raw)

  connect-ConnectsTo :
      (root : Text) (indices : Indices) (coordinates : List Text) (n k : ℕ)
      (raw : List (Text × Manifest))
      → AllBelow n indices
      → length coordinates ≡ n
      → AllAt indices k raw
      → Yields
          (ConnectsTo n k raw)
          (connect canonical starts_with read_manifest root indices coordinates raw)
  unfolding connect
  connect-ConnectsTo root indices coordinates n k [] b e a = (tt, refl)
  connect-ConnectsTo root indices coordinates n k ((directory, manifest) ∷ raw) b e (at, a) =
      Yields->>= (AreOther n k) (ConnectsTo n k ((directory, manifest) ∷ raw)) _ _
        (discover-AreOther directory manifest root indices coordinates n k b e at)
        (λ dependencies o.
          Yields->>= (ConnectsTo n (suc k) raw) (ConnectsTo n k ((directory, manifest) ∷ raw)) _ _
            (connect-ConnectsTo root indices coordinates n (suc k) raw b e a)
            (λ modules (c, l). ((o, c), ap suc l)))

  -- All canonical paths are of a finite list.
  module _ (all : List Text)
      (known : (directory path found : Text)
        → canonical directory path ≡ some found
        → contains all found ≡ true) where
    abbrev AllKnown : List Text → Type 0
    AllKnown pending = all_of (contains all) pending ≡ true

    AllKnown-cons :
        (x : Text) (xs : List Text) → contains all x ≡ true → AllKnown xs → AllKnown (x ∷ xs)
    AllKnown-cons x xs h k = ground (arith, h, k)

    AllKnown-head : (x : Text) (xs : List Text) → AllKnown (x ∷ xs) → contains all x ≡ true
    AllKnown-head x xs k = ground (arith, k)

    AllKnown-tail : (x : Text) (xs : List Text) → AllKnown (x ∷ xs) → AllKnown xs
    AllKnown-tail x xs k = ground (arith, k)

    push_children-AllKnown :
        (root directory : Text) (children pending : List Text)
        → AllKnown pending
        → Yields AllKnown
            (push_children canonical starts_with read_manifest root directory children pending)
    push_children-AllKnown root directory [] pending k = k
    push_children-AllKnown root directory (child ∷ children) pending k =
        Yields->>= AllKnown AllKnown _ _ (push_children-AllKnown root directory children pending k)
          (λ rest l.
            Yields->>= (λ p. canonical directory child ≡ some p) AllKnown _ _
              (Yields-or_failed child (canonical directory child))
              (λ path e.
                Yields->>= (λ _. starts_with path root ≡ true) AllKnown _ _
                  (Yields-require (starts_with path root) _)
                  (λ _ _. AllKnown-cons path rest (known directory child path e) l)))

    discover_raw-HasNew :
        (fuel : ℕ) (root : Text) (pending seen : List Text)
        → AllKnown pending
        → unseen seen all < fuel
        → Yields
            (HasNew seen)
            (discover_raw canonical starts_with read_manifest fuel root pending seen)
    unfolding discover_raw
    discover_raw-HasNew fuel root [] seen k h = tt
    discover_raw-HasNew zero root (directory ∷ pending) seen k h = absurd (omega (arith, h))
    discover_raw-HasNew (suc fuel) root (directory ∷ pending) seen k h =
        Yields->>= (λ _. not (contains seen directory) ≡ true) (HasNew seen) _ _
          (Yields-require (not (contains seen directory)) _)
          (λ _ new.
            Yields->>= (λ m. read_manifest directory ≡ some m) (HasNew seen) _ _
              (Yields-or_failed directory (read_manifest directory))
              (λ manifest _.
                Yields->>= AllKnown (HasNew seen) _ _
                  (push_children-AllKnown root directory manifest.modules pending
                    (AllKnown-tail directory pending k))
                  (λ next l.
                    Yields->>= (HasNew (directory ∷ seen)) (HasNew seen) _ _
                      (discover_raw-HasNew fuel root next (directory ∷ seen) l (
                        omega (
                          arith,
                          h,
                          unseen-cons directory seen all (AllKnown-head directory pending k)
                              (ground arith),
                        )))
                      (λ raw n. (ground arith, n)))))

    -- Where only finitely many paths are canonical ones, the discovery of a workspace ends, never with
    -- an index out of range. In the workspace that it finds every dependency is another module of it,
    -- so that its modules are put in order or a cycle is named.
    pub discover_modules-IsOrdered :
        (fuel : ℕ) (start : Text)
        → length all < fuel
        → Yields IsOrdered (discover_modules canonical starts_with read_manifest fuel start)
    unfolding discover_modules
    discover_modules-IsOrdered fuel start h =
        Yields->>= (λ p. canonical [] start ≡ some p) IsOrdered _ _
          (Yields-or_failed start (canonical [] start))
          (λ root e.
            Yields->>= (HasNew []) IsOrdered _ _
              (discover_raw-HasNew fuel root (root ∷ []) []
                (AllKnown-cons root [] (known [] start root e) refl)
                (omega (arith, h, unseen_nothing all)))
              (λ raw new.
                Yields-mono (ConnectsTo (length raw) 0 raw) IsOrdered _
                  (λ modules (c, l). AllClosed-IsOrdered modules (rw (sym l) at c))
                  (connect-ConnectsTo root (indices_from 0 raw) (coordinates_of raw) (length raw) 0
                    raw (AllBelow-indices_from (length raw) 0 raw (omega arith))
                    (length-coordinates_of raw) (AllAt-indices_from [] 0 raw new))))
