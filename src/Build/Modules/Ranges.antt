-- ===== src/Build/Modules/Ranges.antt =====
-- crates/jman-build/src/lib.rs: the dependencies of modules whose indices are all of modules.
use jman.Base.{
  ℕ, zero, suc, ◌<◌, Bool, true, List, [], ◌∷◌, ◌++◌, ◌=ℕ=◌, ◌&&◌, ◌||◌, ltb, arith, ◌≡◌, refl,
  all_of, length, ok, Bool-cases, inl, inr,
}
use jman.Build.Workspace.{Module}
use jman.Build.Modules.{targets, has, insert, insert_all, module_at}

-- The first module needs the second.
abbrev pub Needs : List Module → ℕ → ℕ → Type 0
Needs modules i j =
    (m : Module) × (module_at modules i ≡ ok m) × (has (targets m.dependencies) j ≡ true)

-- All dependencies are modules of the workspace.
abbrev pub in_range : ℕ → List Module → Bool
in_range n = all_of (λ m. all_of (λ j. ltb j n) (targets m.dependencies))

pub module_at-lt :
    (modules : List Module) (i : ℕ)
    → i < length modules
    → (m : Module) × (module_at modules i ≡ ok m)
unfolding module_at
module_at-lt [] i h = absurd (omega (arith, h))
module_at-lt (m ∷ modules) zero h = (m, refl)
module_at-lt (m ∷ modules) (suc i) h = module_at-lt modules i (omega (arith, h))

pub module_at-in_range :
    (n : ℕ) (modules : List Module) (i : ℕ) (m : Module)
    → in_range n modules ≡ true
    → module_at modules i ≡ ok m
    → all_of (λ j. ltb j n) (targets m.dependencies) ≡ true
unfolding module_at
module_at-in_range n [] i m h e = cc
module_at-in_range n (x ∷ modules) zero m h e =
    let first : all_of (λ j. ltb j n) (targets x.dependencies) ≡ true = ground arith in cc
module_at-in_range n (x ∷ modules) (suc i) m h e = module_at-in_range n modules i m (ground arith) e

pub number_eq : (x i : ℕ) → (x =ℕ= i) ≡ true → x ≡ i
number_eq x i h = ground arith

and_first : (a b : Bool) → (a && b) ≡ true → a ≡ true
and_first a b h = ground arith

pub all_of-has :
    (p : ℕ → Bool) (xs : List ℕ) (i : ℕ) → all_of p xs ≡ true → has xs i ≡ true → p i ≡ true
all_of-has p [] i a h = cc
all_of-has p (x ∷ xs) i a h = elim (Bool-cases (x =ℕ= i)) [
  | inl e ↦ cc (number_eq x i e, and_first (p x) (all_of p xs) a)
  | inr e ↦ all_of-has p xs i (ground arith) (ground arith)
]

pub has-insert : (i j : ℕ) (xs : List ℕ) → has (insert i xs) j ≡ ((i =ℕ= j) || has xs j)
has-insert i j [] = refl
has-insert i j (x ∷ xs) = ground (arith, has-insert i j xs)

pub has-insert_all :
    (layer done : List ℕ) (j : ℕ) → has (insert_all layer done) j ≡ (has layer j || has done j)
has-insert_all [] done j = refl
has-insert_all (i ∷ layer) done j =
    ground (arith, has-insert_all layer (insert i done) j, has-insert i j done)

pub has-append : (xs ys : List ℕ) (i : ℕ) → has (xs ++ ys) i ≡ (has xs i || has ys i)
has-append [] ys i = refl
has-append (x ∷ xs) ys i = ground (arith, has-append xs ys i)
