-- ===== src/Build/Modules/Closure.antt =====
-- crates/jman-build/src/lib.rs: `transitive_dependencies` finds what is reached by dependencies that
-- the usage includes.
use jman.Base.{
  ℕ, zero, suc, ◌+◌, ◌<◌, ◌≤◌, Bool, true, false, List, [], ◌∷◌, ◌=ℕ=◌, ◌||◌, ltb, if◌then◌else◌,
  arith, ◌≡◌, refl, all_of, length, ok, Bool-cases, inl, inr, ◌↔◌,
}
use jman.Build.Workspace.{Module, WorkspaceDependency}
use jman.Build.Modules.{
  Usage, used, targets, has, insert, push_all, module_at, close_over, size_of,
  transitive_dependencies,
}
use jman.Build.Modules.Ranges.{
  in_range, module_at-lt, module_at-in_range, all_of-has, has-insert, number_eq,
}

abbrev pub Uses : List Module → Usage → ℕ → ℕ → Type 0
Uses modules usage i j =
    (m : Module) × (module_at modules i ≡ ok m) × (has (used usage m.dependencies) j ≡ true)

-- By one dependency or more.
pub data Reaches (modules : List Module) (usage : Usage) : ℕ → ℕ → Type 0 where
  once : {i j : ℕ} → Uses modules usage i j → Reaches modules usage i j
  later :
      {i j k : ℕ} → Reaches modules usage i j → Uses modules usage j k → Reaches modules usage i k

has-push_all :
    (indices pending : List ℕ) (j : ℕ)
    → has (push_all indices pending) j ≡ (has indices j || has pending j)
has-push_all [] pending j = refl
has-push_all (i ∷ indices) pending j = ground (arith, has-push_all indices (i ∷ pending) j)

length-push_all :
    (indices pending : List ℕ) → length (push_all indices pending) ≡ length indices + length pending
length-push_all [] pending = omega arith
length-push_all (i ∷ indices) pending = omega (arith, length-push_all indices (i ∷ pending))

length-used :
    (usage : Usage) (dependencies : List WorkspaceDependency)
    → length (used usage dependencies) ≤ length dependencies
length-used usage [] = omega arith
length-used usage (d ∷ dependencies) = ground (arith, length-used usage dependencies)

all_of-used :
    (p : ℕ → Bool) (usage : Usage) (dependencies : List WorkspaceDependency)
    → all_of p (targets dependencies) ≡ true
    → all_of p (used usage dependencies) ≡ true
all_of-used p usage [] h = refl
all_of-used p usage (d ∷ dependencies) h = ground (arith, all_of-used p usage dependencies)

-- The dependencies of the modules that are not found, from an index on.
weight : ℕ → List ℕ → List Module → ℕ
weight k found [] = 0
weight k found (m ∷ modules) =
    (if has found k then 0 else length m.dependencies) + weight (suc k) found modules

weight-insert_le :
    (k i : ℕ) (found : List ℕ) (modules : List Module)
    → weight k (insert i found) modules ≤ weight k found modules
unfolding weight
weight-insert_le k i found [] = omega arith
weight-insert_le k i found (m ∷ modules) =
    ground (arith, has-insert i k found, weight-insert_le (suc k) i found modules)

weight-insert :
    (k i place : ℕ) (found : List ℕ) (modules : List Module) (m : Module)
    → i ≡ k + place
    → module_at modules place ≡ ok m
    → has found i ≡ false
    → weight k (insert i found) modules + length m.dependencies ≤ weight k found modules
unfolding weight module_at
weight-insert k i place found [] m e h n = cc
weight-insert k i zero found (x ∷ modules) m e h n =
    let same : length x.dependencies ≡ length m.dependencies = cc in
    let here : i ≡ k = omega (arith, e) in
    ground
      (arith, same, rw here at n, has-insert i k found, weight-insert_le (suc k) i found modules)
weight-insert k i (suc place) found (x ∷ modules) m e h n =
    ground (arith, has-insert i k found, weight-insert (suc k) i place found modules m)

weight_nothing : (k : ℕ) (modules : List Module) → weight k [] modules ≡ size_of modules
unfolding weight
weight_nothing k [] = refl
weight_nothing k (m ∷ modules) = omega (arith, weight_nothing (suc k) modules)

-- Of the index, what is found and what is pending.
record IsSearch (modules : List Module) (usage : Usage) (index : ℕ) (found pending : List ℕ)
    : Type 0 where
  is_reached : (i : ℕ) → (has found i || has pending i) ≡ true → Reaches modules usage index i
  is_closed :
      (i j : ℕ)
      → has found i ≡ true
      → Uses modules usage i j
      → (has found j || has pending j) ≡ true
  has_first : (j : ℕ) → Uses modules usage index j → (has found j || has pending j) ≡ true
  is_module : (i : ℕ) → has pending i ≡ true → i < length modules

abbrev pub Closes : List Module → Usage → ℕ → List ℕ → Type 0
Closes modules usage index found = (k : ℕ) → (has found k ≡ true) ↔ Reaches modules usage index k

module _ (modules : List Module) (usage : Usage) (index : ℕ)
    (closed : in_range (length modules) modules ≡ true) where
  IsSearch-Closes :
      (found : List ℕ) → IsSearch modules usage index found [] → Closes modules usage index found
  IsSearch-Closes found s k = (λ h. s.is_reached k (ground arith), reached k)
    where
      reached : (k : ℕ) → Reaches modules usage index k → has found k ≡ true
      reached k (once u) = ground (arith, s.has_first k u)
      reached k (later {j} r u) = ground (arith, s.is_closed j k (reached j r) u)

  IsSearch-skip :
      (found pending : List ℕ) (i : ℕ)
      → has found i ≡ true
      → IsSearch modules usage index found (i ∷ pending)
      → IsSearch modules usage index found pending
  IsSearch-skip found pending i h s = record {
    is_reached = λ k l. s.is_reached k (ground arith);
    is_closed = λ k j l u. still j (s.is_closed k j l u);
    has_first = λ j u. still j (s.has_first j u);
    is_module = λ k l. s.is_module k (ground arith);
  }
    where
      still :
          (j : ℕ)
          → (has found j || has (i ∷ pending) j) ≡ true
          → (has found j || has pending j) ≡ true
      still j l = elim (Bool-cases (i =ℕ= j)) [
        | inl e ↦ let same = number_eq i j e in ground (arith, rw same at h)
        | inr e ↦ ground arith
      ]

  IsSearch-enter :
      (found pending : List ℕ) (i : ℕ) (m : Module)
      → module_at modules i ≡ ok m
      → IsSearch modules usage index found (i ∷ pending)
      → IsSearch modules usage index (insert i found) (push_all (used usage m.dependencies) pending)
  IsSearch-enter found pending i m at s =
      let needed = used usage m.dependencies in
      record {
        is_reached = λ k l. elim (Bool-cases (has needed k)) [
          | inl e ↦ later (s.is_reached i (ground arith)) (m, at, e)
          | inr e ↦
              s.is_reached k (ground (arith, has-insert i k found, has-push_all needed pending k))
        ];
        is_closed = λ k j l u. elim (Bool-cases (i =ℕ= k)) [
          | inl e ↦
              let (m', at', h) = u in
              let same = number_eq i k e in
              let here : has needed j ≡ true = cc in ground (arith, has-push_all needed pending j)
          | inr e ↦
              let old : has found k ≡ true = ground (arith, has-insert i k found) in
              ground
                (arith, s.is_closed k j old u, has-insert i j found, has-push_all needed pending j)
        ];
        has_first = λ j u.
            ground (arith, s.has_first j u, has-insert i j found, has-push_all needed pending j);
        is_module = λ k l. elim (Bool-cases (has needed k)) [
          | inl e ↦
              let below =
                all_of-has (λ j. ltb j (length modules)) needed k
                  (all_of-used (λ j. ltb j (length modules)) usage m.dependencies
                    (module_at-in_range (length modules) modules i m closed at))
                  e in
              ground arith
          | inr e ↦ s.is_module k (ground (arith, has-push_all needed pending k))
        ];
      }

  close_over-Closes :
      (fuel : ℕ) (found pending : List ℕ)
      → IsSearch modules usage index found pending
      → length pending + weight 0 found modules < fuel
      → (result : List ℕ) × (close_over fuel usage modules found pending ≡ ok result)
        × Closes modules usage index result
  unfolding close_over
  close_over-Closes zero found pending s h = absurd (omega (arith, h))
  close_over-Closes (suc fuel) found [] s h = (found, refl, IsSearch-Closes found s)
  close_over-Closes (suc fuel) found (i ∷ pending) s h = elim (Bool-cases (has found i)) [
    | inl e ↦
        let (result, p, c) =
          close_over-Closes fuel found pending (IsSearch-skip found pending i e s)
            (omega (arith, h)) in
        (result, rw e p, c)
    | inr e ↦
        let (m, at) = module_at-lt modules i (s.is_module i (ground arith)) in
        let (result, p, c) =
          close_over-Closes fuel (insert i found) (push_all (used usage m.dependencies) pending)
            (IsSearch-enter found pending i m at s)
            (omega (
              arith,
              h,
              length-push_all (used usage m.dependencies) pending,
              length-used usage m.dependencies,
              weight-insert 0 i i found modules m (omega arith) at e,
            )) in
        (result, rw (e, at) p, c)
  ]

  IsSearch-start :
      (m : Module)
      → module_at modules index ≡ ok m
      → IsSearch modules usage index [] (push_all (used usage m.dependencies) [])
  IsSearch-start m at =
      let needed = used usage m.dependencies in
      record {
        is_reached = λ k l. once (m, at, ground (arith, has-push_all needed [] k));
        is_closed = λ k j l u. cc;
        has_first = λ j (m', at', h).
            let here : has needed j ≡ true = cc in ground (arith, has-push_all needed [] j);
        is_module = λ k l.
            let below =
              all_of-has (λ j. ltb j (length modules)) needed k
                (all_of-used (λ j. ltb j (length modules)) usage m.dependencies
                  (module_at-in_range (length modules) modules index m closed at))
                (ground (arith, has-push_all needed [] k)) in
            ground arith;
      }

  -- Where every dependency is a module of the workspace, the search ends, never with an index out of
  -- range, and finds exactly the modules that are reached by dependencies of the usage, also where
  -- these lead in a circle.
  pub transitive_dependencies-Closes :
      index < length modules
      → (found : List ℕ) × (transitive_dependencies index modules usage ≡ ok found)
        × Closes modules usage index found
  unfolding transitive_dependencies
  transitive_dependencies-Closes h =
      let (m, at) = module_at-lt modules index h in
      let (found, p, c) =
        close_over-Closes (suc (length m.dependencies + size_of modules)) []
          (push_all (used usage m.dependencies) []) (IsSearch-start m at)
          (omega (
            arith,
            length-push_all (used usage m.dependencies) [],
            length-used usage m.dependencies,
            weight_nothing 0 modules,
          )) in
      (found, rw at p, c)
