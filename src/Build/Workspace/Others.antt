-- ===== src/Build/Workspace/Others.antt =====
-- crates/jman-build/src/lib.rs: the dependencies of a module are other modules.
use jman.Base.{
  ℕ, suc, text_eq, Bool, true, List, [], ◌∷◌, ◌=ℕ=◌, ◌&&◌, ltb, not, all_of, arith, ◌≡◌, refl,
}
use jman.Build.Workspace.{WorkspaceDependency, Module}
use jman.Build.Workspace.Discovery.{insert_by_index, sort_by_index}
use jman.Build.Modules.{targets}
use jman.Build.Modules.Ranges.{in_range}

-- An index of another module.
abbrev pub is_other : ℕ → ℕ → WorkspaceDependency → Bool
is_other n own d = ltb d.index n && not (d.index =ℕ= own)

abbrev pub AreOther : ℕ → ℕ → List WorkspaceDependency → Type 0
AreOther n own found = all_of (is_other n own) found ≡ true

insert_by_index-AreOther :
    (n own : ℕ) (d : WorkspaceDependency) (found : List WorkspaceDependency)
    → is_other n own d ≡ true
    → AreOther n own found
    → AreOther n own (insert_by_index d found)
insert_by_index-AreOther n own d [] h k = ground arith
insert_by_index-AreOther n own d (e ∷ found) h k =
    ground (arith, insert_by_index-AreOther n own d found h)

pub sort_by_index-AreOther :
    (n own : ℕ) (found : List WorkspaceDependency)
    → AreOther n own found
    → AreOther n own (sort_by_index found)
sort_by_index-AreOther n own [] h = refl
sort_by_index-AreOther n own (d ∷ found) h =
    insert_by_index-AreOther n own d (sort_by_index found) (ground arith)
      (sort_by_index-AreOther n own found (ground arith))

-- The module at each place depends on others alone.
abbrev pub AllClosed : ℕ → ℕ → List Module → Type 0
AllClosed n own [] = Unit
AllClosed n own (m ∷ modules) = AreOther n own m.dependencies × AllClosed n (suc own) modules

pub AllClosed-in_range :
    (n k : ℕ) (modules : List Module) → AllClosed n k modules → in_range n modules ≡ true
AllClosed-in_range n k [] a = refl
AllClosed-in_range n k (m ∷ modules) (o, a) =
    rw (below m.dependencies o) (AllClosed-in_range n (suc k) modules a)
  where
    below :
        (ds : List WorkspaceDependency)
        → AreOther n k ds
        → all_of (λ j. ltb j n) (targets ds) ≡ true
    below [] o = refl
    below (d ∷ ds) o = ground (arith, below ds)
