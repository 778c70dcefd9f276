-- ===== src/Build/Modules/Cycles.antt =====
-- crates/jman-build/src/lib.rs: among modules each of which needs another of them, the search finds
-- a cycle.
use jman.Base.{
  ℕ, zero, suc, ◌+◌, ◌<◌, ◌≤◌, true, false, some, none, List, [], ◌∷◌, ◌++◌, ◌=ℕ=◌, if◌then◌else◌,
  arith, ◌≡◌, refl, sym, any_of, length, Result, ok, Bool-cases, Option-cases, inl, inr,
}
use jman.Build.Workspace.{Module, Stop}
use jman.Build.Modules.{
  targets, has, module_at, Search, cycle, visit_each, visit, visit_roots, from_position,
  module_dependency_cycle,
}
use jman.Build.Modules.Ranges.{Needs, has-append, number_eq}

-- Each module of the list needs the next one, and the last one the module behind the list.
abbrev pub Leads : List Module → List ℕ → ℕ → Type 0
Leads modules [] j = Unit
Leads modules (i ∷ []) j = Needs modules i j
Leads modules (i ∷ k ∷ stack) j = Needs modules i k × Leads modules (k ∷ stack) j

-- A list of indices whose last one is the first, and in which each module needs the next.
abbrev pub IsCycle : List Module → List ℕ → Type 0
IsCycle modules found =
    (i : ℕ) × (middle : List ℕ) × (found ≡ i ∷ middle ++ (i ∷ [])) × Leads modules (i ∷ middle) i

-- Each candidate needs a candidate.
abbrev pub AllWait : List Module → List ℕ → Type 0
AllWait modules candidates =
    (i : ℕ)
    → has candidates i ≡ true
    → (m : Module) × (module_at modules i ≡ ok m)
      × (any_of (has candidates) (targets m.dependencies) ≡ true)

abbrev Finds : List Module → Result Stop Search → Type 0
Finds modules m = (found : List ℕ) × (m ≡ ok (cycle found)) × IsCycle modules found

fresh : List ℕ → List ℕ → ℕ
fresh stack [] = 0
fresh stack (c ∷ candidates) = (if has stack c then 0 else 1) + fresh stack candidates

fresh_nothing : (candidates : List ℕ) → fresh [] candidates ≡ length candidates
unfolding fresh
fresh_nothing [] = refl
fresh_nothing (c ∷ candidates) = omega (arith, fresh_nothing candidates)

fresh-snoc_le :
    (stack : List ℕ) (i : ℕ) (candidates : List ℕ)
    → fresh (stack ++ (i ∷ [])) candidates ≤ fresh stack candidates
unfolding fresh
fresh-snoc_le stack i [] = omega arith
fresh-snoc_le stack i (c ∷ candidates) =
    ground (arith, has-append stack (i ∷ []) c, fresh-snoc_le stack i candidates)

fresh-snoc :
    (stack : List ℕ) (i : ℕ) (candidates : List ℕ)
    → has candidates i ≡ true
    → has stack i ≡ false
    → fresh (stack ++ (i ∷ [])) candidates < fresh stack candidates
unfolding fresh
fresh-snoc stack i [] h n = cc
fresh-snoc stack i (c ∷ candidates) h n = ground (
  arith,
  has-append stack (i ∷ []) c,
  fresh-snoc_le stack i candidates,
  fresh-snoc stack i candidates,
)

module _ (modules : List Module) where
  Leads-snoc :
      (stack : List ℕ) (i j : ℕ)
      → Leads modules stack i
      → Needs modules i j
      → Leads modules (stack ++ (i ∷ [])) j
  Leads-snoc [] i j l n = n
  Leads-snoc (x ∷ []) i j l n = (l, n)
  Leads-snoc (x ∷ y ∷ stack) i j (m, l) n = (m, Leads-snoc (y ∷ stack) i j l n)

  Leads-tail :
      (x : ℕ) (stack : List ℕ) (j : ℕ) → Leads modules (x ∷ stack) j → Leads modules stack j
  Leads-tail x [] j l = tt
  Leads-tail x (y ∷ stack) j (n, l) = l

  from_position-Leads :
      (i : ℕ) (stack found : List ℕ)
      → from_position i stack ≡ some found
      → Leads modules stack i
      → IsCycle modules (found ++ (i ∷ []))
  unfolding from_position
  from_position-Leads i [] found h l = cc
  from_position-Leads i (x ∷ stack) found h l = elim (Bool-cases (x =ℕ= i)) [
    | inl e ↦ let same = number_eq x i e in (x, stack, rw (sym same) (cc), rw (sym same) at l)
    | inr e ↦ from_position-Leads i stack found (cc) (Leads-tail x stack i l)
  ]

  from_position-none : (i : ℕ) (stack : List ℕ) → from_position i stack ≡ none → has stack i ≡ false
  unfolding from_position
  from_position-none i [] h = refl
  from_position-none i (x ∷ stack) h = ground (arith, from_position-none i stack)

  module _ (candidates : List ℕ) where
    visit_each-Finds :
        (enter : ℕ → List ℕ → Result Stop Search) (dependencies : List ℕ)
        → ((d : ℕ)
            → has candidates d ≡ true
            → has dependencies d ≡ true
            → Finds modules (enter d []))
        → any_of (has candidates) dependencies ≡ true
        → Finds modules (visit_each enter candidates dependencies [])
    visit_each-Finds enter [] f h = cc
    visit_each-Finds enter (d ∷ dependencies) f h = elim (Bool-cases (has candidates d)) [
      | inl e ↦ let (found, m, c) = f d e (ground arith) in (found, rw (e, m) refl, c)
      | inr e ↦
          rw e (visit_each-Finds enter dependencies (λ x p q. f x p (ground arith)) (ground arith))
    ]

    visit-below :
        (fuel : ℕ) (stack : List ℕ) (i : ℕ) (m : Module) (found : List ℕ)
        → from_position i stack ≡ none
        → module_at modules i ≡ ok m
        → visit_each
            (visit fuel modules candidates (stack ++ (i ∷ [])))
            candidates
            (targets m.dependencies)
            []
          ≡ ok (cycle found)
        → visit (suc fuel) modules candidates stack i [] ≡ ok (cycle found)
    unfolding visit
    visit-below fuel stack i m found e at p = rw (visit, e, at, p) refl

    visit-Finds :
        (fuel : ℕ) (stack : List ℕ) (i : ℕ)
        → AllWait modules candidates
        → has candidates i ≡ true
        → Leads modules stack i
        → fresh stack candidates < fuel
        → Finds modules (visit fuel modules candidates stack i [])
    unfolding visit
    visit-Finds zero stack i w h l k = absurd (omega (arith, k))
    visit-Finds (suc fuel) stack i w h l k = elim (Option-cases (from_position i stack)) [
      | inr (found, e) ↦
          (found ++ (i ∷ []), rw (visit, e) refl, from_position-Leads i stack found e l)
      | inl e ↦
          let (m, at, any) = w i h in
          let (found, p, c) =
            visit_each-Finds (visit fuel modules candidates (stack ++ (i ∷ [])))
              (targets m.dependencies)
              (λ d in_candidates needed.
                visit-Finds fuel (stack ++ (i ∷ [])) d w in_candidates
                  (Leads-snoc stack i d l (m, at, needed))
                  (omega
                    (arith, k, fresh-snoc stack i candidates h (from_position-none i stack e))))
              any in
          (found, visit-below fuel stack i m found e at p, c)
    ]

  visit_roots-Finds :
      (enter : ℕ → List ℕ → Result Stop Search) (candidates : List ℕ)
      → ((c : ℕ) → has candidates c ≡ true → Finds modules (enter c []))
      → (i : ℕ) → has candidates i ≡ true
      → (found : List ℕ) × (visit_roots enter candidates candidates [] ≡ ok found)
        × IsCycle modules found
  visit_roots-Finds enter [] f i h = cc
  visit_roots-Finds enter (c ∷ candidates) f i h =
      let (found, m, l) = f c (ground arith) in (found, rw m refl, l)

  -- Where each of the candidates, and there is one, needs a candidate, a cycle is found.
  pub module_dependency_cycle-IsCycle :
      (candidates : List ℕ)
      → AllWait modules candidates
      → (i : ℕ) → has candidates i ≡ true
      → (found : List ℕ) × (module_dependency_cycle modules candidates ≡ ok found)
        × IsCycle modules found
  unfolding module_dependency_cycle
  module_dependency_cycle-IsCycle candidates w i h =
      visit_roots-Finds (visit (suc (length candidates)) modules candidates []) candidates
        (λ c p.
          visit-Finds candidates (suc (length candidates)) [] c w p tt
            (omega (arith, fresh_nothing candidates)))
        i h
