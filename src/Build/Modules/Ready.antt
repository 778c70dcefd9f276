-- ===== src/Build/Modules/Ready.antt =====
-- crates/jman-build/src/lib.rs: how a round of `topological_layers` parts the remaining modules.
use jman.Base.{
  ℕ, ◌+◌, ◌<◌, Bool, true, false, List, [], ◌∷◌, ◌=ℕ=◌, ◌||◌, ltb, arith, ◌≡◌, refl, sym, all_of,
  length, ok, Bool-cases, inl, inr,
}
use jman.Build.Workspace.{Module}
use jman.Build.Modules.{targets, has, module_at, is_ready, split_ready}
use jman.Build.Modules.Ranges.{module_at-lt, all_of-has, number_eq}

abbrev pub IsIncreasing : List ℕ → Type 0
IsIncreasing [] = Unit
IsIncreasing (i ∷ xs) = (all_of (ltb i) xs ≡ true) × IsIncreasing xs

-- All that the module needs is complete.
abbrev pub IsReady : List Module → List ℕ → ℕ → Type 0
IsReady modules done i =
    (m : Module) × (module_at modules i ≡ ok m)
    × (all_of (has done) (targets m.dependencies) ≡ true)

-- The ready ones and the others of the remaining modules.
pub record IsSplit (modules : List Module) (done remaining layer waiting : List ℕ) : Type 0 where
  pub all_ready : (i : ℕ) → has layer i ≡ true → IsReady modules done i
  pub each_waits :
      (i : ℕ)
      → has waiting i ≡ true
      → (m : Module) × (module_at modules i ≡ ok m)
        × (all_of (has done) (targets m.dependencies) ≡ false)
  pub same : (i : ℕ) → (has layer i || has waiting i) ≡ has remaining i
  pub sizes : length layer + length waiting ≡ length remaining
  pub layer_in_order : IsIncreasing layer
  pub waiting_in_order : IsIncreasing waiting

all_of-subset :
    (p : ℕ → Bool) (xs ys : List ℕ)
    → ((i : ℕ) → has xs i ≡ true → has ys i ≡ true)
    → all_of p ys ≡ true
    → all_of p xs ≡ true
all_of-subset p [] ys h a = refl
all_of-subset p (x ∷ xs) ys h a =
    rw (all_of-has p ys x a (h x (ground arith)))
      (all_of-subset p xs ys (λ i k. h i (ground arith)) a)

module _ (modules : List Module) (done : List ℕ) where
  module _ (j : ℕ) (remaining layer waiting : List ℕ) (m : Module)
      (at : module_at modules j ≡ ok m) where
    ready-IsSplit :
        is_ready done m ≡ true
        → all_of (ltb j) remaining ≡ true
        → IsSplit modules done remaining layer waiting
        → IsSplit modules done (j ∷ remaining) (j ∷ layer) waiting
    ready-IsSplit e a s = record {
      all_ready = λ i h. elim (Bool-cases (j =ℕ= i)) [
        | inl q ↦ rw (sym (number_eq j i q)) (m, at, e)
        | inr q ↦ s.all_ready i (ground arith)
      ];
      each_waits = s.each_waits;
      same = λ i. ground (arith, s.same i);
      sizes = omega (arith, s.sizes);
      layer_in_order = (
        all_of-subset (ltb j) layer remaining (λ i h. ground (arith, s.same i)) a,
        s.layer_in_order,
      );
      waiting_in_order = s.waiting_in_order;
    }

    waiting-IsSplit :
        is_ready done m ≡ false
        → all_of (ltb j) remaining ≡ true
        → IsSplit modules done remaining layer waiting
        → IsSplit modules done (j ∷ remaining) layer (j ∷ waiting)
    waiting-IsSplit e a s = record {
      all_ready = s.all_ready;
      each_waits = λ i h. elim (Bool-cases (j =ℕ= i)) [
        | inl q ↦ rw (sym (number_eq j i q)) (m, at, e)
        | inr q ↦ s.each_waits i (ground arith)
      ];
      same = λ i. ground (arith, s.same i);
      sizes = omega (arith, s.sizes);
      layer_in_order = s.layer_in_order;
      waiting_in_order = (
        all_of-subset (ltb j) waiting remaining (λ i h. ground (arith, s.same i)) a,
        s.waiting_in_order,
      );
    }

  pub split_ready-IsSplit :
      (remaining : List ℕ)
      → IsIncreasing remaining
      → ((i : ℕ) → has remaining i ≡ true → i < length modules)
      → (layer : List ℕ) × (waiting : List ℕ) × (split_ready modules done remaining
          ≡ ok (layer, waiting))
        × IsSplit modules done remaining layer waiting
  unfolding split_ready
  split_ready-IsSplit [] o r = (
    [],
    [],
    refl,
    record {
      all_ready = λ i h. cc;
      each_waits = λ i h. cc;
      same = λ i. refl;
      sizes = omega arith;
      layer_in_order = tt;
      waiting_in_order = tt;
    },
  )
  split_ready-IsSplit (j ∷ remaining) (a, o) r =
      let (m, at) = module_at-lt modules j (r j (ground arith)) in
      let (layer, waiting, p, s) = split_ready-IsSplit remaining o (λ i h. r i (ground arith)) in
      elim (Bool-cases (is_ready done m)) [
        | inl e ↦ (
          j ∷ layer,
          waiting,
          rw (at, p, e) refl,
          ready-IsSplit j remaining layer waiting m at e a s,
        )
        | inr e ↦ (
          layer,
          j ∷ waiting,
          rw (at, p, e) refl,
          waiting-IsSplit j remaining layer waiting m at e a s,
        )
      ]
