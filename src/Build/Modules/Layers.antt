-- ===== src/Build/Modules/Layers.antt =====
-- crates/jman-build/src/lib.rs: the layers hold every module once, each behind those that it needs,
-- or there is a cycle.
use jman.Base.{
  ℕ, zero, suc, ◌+◌, ◌<◌, ◌≤◌, true, false, Text, codes, join, List, [], ◌∷◌, ◌++◌, ◌&&◌, ◌||◌, ltb,
  not, arith, ◌≡◌, refl, ap, ◌∙◌, any_of, all_of, length, Result, ok, err, Bool-cases, inl, inr,
  ◌>>=◌,
}
use jman.Build.Workspace.{Module, Stop, invalid, failed, panicked, exhausted}
use jman.Build.Modules.{
  targets, has, insert_all, module_at, module_dependency_cycle, names_of, report_cycle,
  build_layers, count_from, topological_layers,
}
use jman.Build.Modules.Ranges.{in_range, module_at-in_range, has-insert_all}
use jman.Build.Modules.Cycles.{Leads, IsCycle, AllWait, module_dependency_cycle-IsCycle}
use jman.Build.Modules.Ready.{IsIncreasing, IsReady, IsSplit, split_ready-IsSplit}

-- Each layer holds new modules in increasing order, which need what the layers before it hold
-- alone; all layers together hold all modules.
abbrev pub AreLayers : List Module → List ℕ → List (List ℕ) → Type 0
AreLayers modules done [] = (i : ℕ) → i < length modules → has done i ≡ true
AreLayers modules done (layer ∷ layers) =
    ((i : ℕ) → has layer i ≡ true → (has done i ≡ false) × IsReady modules done i)
    × IsIncreasing layer
    × AreLayers modules (insert_all layer done) layers

-- The message names the modules of a cycle.
abbrev pub TellsCycle : List Module → Stop → Type 0
TellsCycle modules (invalid message) =
    (found : List ℕ) × (names : List Text) × IsCycle modules found
    × (names_of modules found ≡ ok names)
    × (message ≡ codes "module dependency cycle detected: " ++ join (codes " -> ") names)
TellsCycle modules (failed _) = ⊥
TellsCycle modules panicked = ⊥
TellsCycle modules exhausted = ⊥

abbrev pub Orders : List Module → List ℕ → Result Stop (List (List ℕ)) → Type 0
Orders modules done (ok layers) = AreLayers modules done layers
Orders modules done (err stop) = TellsCycle modules stop

names_of-Leads :
    (modules : List Module) (i j : ℕ) (stack : List ℕ)
    → Leads modules (i ∷ stack) j
    → (m : Module) → module_at modules j ≡ ok m
    → (names : List Text) × (names_of modules (i ∷ stack ++ (j ∷ [])) ≡ ok names)
names_of-Leads modules i j [] (x, e, _) m f =
    (x.manifest.name ∷ m.manifest.name ∷ [], rw (e, f) refl)
names_of-Leads modules i j (k ∷ stack) ((x, e, _), l) m f =
    let (names, p) = names_of-Leads modules k j stack l m f in
    (x.manifest.name ∷ names, rw (e, p) refl)

Leads-first :
    (modules : List Module) (i j : ℕ) (stack : List ℕ)
    → Leads modules (i ∷ stack) j
    → (m : Module) × (module_at modules i ≡ ok m)
Leads-first modules i j [] (x, e, _) = (x, e)
Leads-first modules i j (k ∷ stack) ((x, e, _), l) = (x, e)

report_cycle-Tells :
    (modules : List Module) (done found : List ℕ)
    → IsCycle modules found
    → Orders modules done (report_cycle modules found)
report_cycle-Tells modules done found (i, middle, e, l) =
    let (m, at) = Leads-first modules i i middle l in
    let (names, p) = names_of-Leads modules i i middle l m at in
    rw (e, p) (i ∷ middle ++ (i ∷ []), names, (i, middle, refl, l), p, refl)

-- The remaining modules, in increasing order, are those that are not complete.
record IsPart (modules : List Module) (remaining done : List ℕ) : Type 0 where
  in_order : IsIncreasing remaining
  is_module : (i : ℕ) → has remaining i ≡ true → i < length modules
  not_done : (i : ℕ) → has remaining i ≡ true → has done i ≡ false
  is_somewhere : (i : ℕ) → i < length modules → (has remaining i || has done i) ≡ true

some_left :
    (done remaining dependencies : List ℕ) (n : ℕ)
    → ((i : ℕ) → i < n → (has remaining i || has done i) ≡ true)
    → all_of (λ j. ltb j n) dependencies ≡ true
    → all_of (has done) dependencies ≡ false
    → any_of (has remaining) dependencies ≡ true
some_left done remaining [] n h r a = cc
some_left done remaining (j ∷ dependencies) n h r a =
    ground (arith, h j, some_left done remaining dependencies n h)

module _ (modules : List Module) (closed : in_range (length modules) modules ≡ true) where
  IsSplit-AllWait :
      (remaining done waiting : List ℕ)
      → IsPart modules remaining done
      → IsSplit modules done remaining [] waiting
      → AllWait modules remaining
  IsSplit-AllWait remaining done waiting part s i h =
      let (m, at, a) = s.each_waits i (s.same i ∙ h) in
      (
        m,
        at,
        some_left done remaining (targets m.dependencies) (length modules) part.is_somewhere
            (module_at-in_range (length modules) modules i m closed at) a,
      )

  apart :
      (remaining done layer waiting : List ℕ) (i : ℕ)
      → IsSplit modules done remaining layer waiting
      → has waiting i ≡ true
      → has layer i ≡ false
  apart remaining done layer waiting i s h = elim (Bool-cases (has layer i)) [
    | inr e ↦ e
    | inl e ↦
        let (m, at, a) = s.all_ready i e in let (m', at', a') = s.each_waits i h in absurd (cc)
  ]

  IsSplit-IsPart :
      (remaining done layer waiting : List ℕ)
      → IsPart modules remaining done
      → IsSplit modules done remaining layer waiting
      → IsPart modules waiting (insert_all layer done)
  IsSplit-IsPart remaining done layer waiting part s = record {
    in_order = s.waiting_in_order;
    is_module = λ i h. part.is_module i (ground (arith, s.same i));
    not_done = λ i h. ground (
      arith,
      s.same i,
      part.not_done i,
      apart remaining done layer waiting i s h,
      has-insert_all layer done i,
    );
    is_somewhere =
        λ i h. ground (arith, s.same i, part.is_somewhere i h, has-insert_all layer done i);
  }

  Orders-cons :
      (done layer : List ℕ) (m : Result Stop (List (List ℕ)))
      → ((i : ℕ) → has layer i ≡ true → (has done i ≡ false) × IsReady modules done i)
      → IsIncreasing layer
      → Orders modules (insert_all layer done) m
      → Orders modules done (m >>= λ layers. ok (layer ∷ layers))
  Orders-cons done layer (ok layers) r o h = (r, o, h)
  Orders-cons done layer (err stop) r o h = h

  next-Orders :
      (fuel i : ℕ) (remaining done layer waiting : List ℕ)
      → IsPart modules (i ∷ remaining) done
      → length remaining ≤ fuel
      → IsSplit modules done (i ∷ remaining) layer waiting
      → ((w d : List ℕ)
          → IsPart modules w d
          → length w ≤ fuel
          → Orders modules d (build_layers fuel modules w d))
      → Orders modules done (elim layer as (λ x. Result Stop (List (List ℕ))) [
        | [] ↦
            module_dependency_cycle modules (i ∷ remaining) >>= λ found. report_cycle modules found
        | j ∷ layer ↦ build_layers fuel modules waiting (insert_all (j ∷ layer) done) >>= λ layers.
            ok ((j ∷ layer) ∷ layers)
      ])
  next-Orders fuel i remaining done [] waiting part h s rest =
      let (found, p, c) =
        module_dependency_cycle-IsCycle modules (i ∷ remaining)
          (IsSplit-AllWait (i ∷ remaining) done waiting part s) i (ground arith) in
      rw p (report_cycle-Tells modules done found c)
  next-Orders fuel i remaining done (j ∷ layer) waiting part h s rest =
      Orders-cons done (j ∷ layer) (build_layers fuel modules waiting (insert_all (j ∷ layer) done))
        (λ k l. (part.not_done k (ground (arith, s.same k)), s.all_ready k l)) s.layer_in_order
        (rest waiting (insert_all (j ∷ layer) done)
          (IsSplit-IsPart (i ∷ remaining) done (j ∷ layer) waiting part s)
          (omega (arith, s.sizes, h)))

  build_layers-Orders :
      (fuel : ℕ) (remaining done : List ℕ)
      → IsPart modules remaining done
      → length remaining ≤ fuel
      → Orders modules done (build_layers fuel modules remaining done)
  unfolding build_layers
  build_layers-Orders fuel [] done part h = λ i k. part.is_somewhere i k
  build_layers-Orders zero (i ∷ remaining) done part h = absurd (omega (arith, h))
  build_layers-Orders (suc fuel) (i ∷ remaining) done part h =
      let (layer, waiting, p, s) =
        split_ready-IsSplit modules done (i ∷ remaining) part.in_order part.is_module in
      rw p (
        next-Orders fuel i remaining done layer waiting part (omega (arith, h)) s
          (λ w d more k. build_layers-Orders fuel w d more k))

has-count_from :
    (modules : List Module) (k i : ℕ)
    → has (count_from k modules) i ≡ (not (ltb i k) && ltb i (k + length modules))
has-count_from [] k i = ground arith
has-count_from (m ∷ modules) k i = ground (arith, has-count_from modules (suc k) i)

count_from-IsIncreasing : (modules : List Module) (k : ℕ) → IsIncreasing (count_from k modules)
count_from-IsIncreasing [] k = tt
count_from-IsIncreasing (m ∷ modules) k =
    (above modules (suc k) (omega arith), count_from-IsIncreasing modules (suc k))
  where
    above : (modules : List Module) (l : ℕ) → k < l → all_of (ltb k) (count_from l modules) ≡ true
    above [] l h = refl
    above (m ∷ modules) l h = ground (arith, above modules (suc l))

length-count_from : (modules : List Module) (k : ℕ) → length (count_from k modules) ≡ length modules
length-count_from [] k = refl
length-count_from (m ∷ modules) k = ap suc (length-count_from modules (suc k))

-- Where every dependency is a module of the workspace, the modules are always put in order, without
-- an index out of range: in layers that hold every module once, each behind all modules that it
-- needs, or there is a cycle of dependencies, which the message of the error names.
pub topological_layers-Orders :
    (modules : List Module)
    → in_range (length modules) modules ≡ true
    → Orders modules [] (topological_layers modules)
unfolding topological_layers
topological_layers-Orders modules closed =
    build_layers-Orders modules closed (length modules) (count_from 0 modules) []
      (record {
        in_order = count_from-IsIncreasing modules 0;
        is_module = λ i h. ground (arith, has-count_from modules 0 i);
        not_done = λ i h. refl;
        is_somewhere = λ i h. ground (arith, has-count_from modules 0 i);
      })
      (omega (arith, length-count_from modules 0))
