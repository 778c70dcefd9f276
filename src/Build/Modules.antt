-- ===== src/Build/Modules.antt =====
-- crates/jman-build/src/lib.rs: the modules of a workspace, by index, what each needs, and the layers
-- in which they are built. A set of indices is the list of its members in increasing order.
pub mod Ranges
pub mod Cycles
pub mod Ready
pub mod Layers
pub mod Closure
use jman.Base.{
  ℕ, zero, suc, ◌+◌, Text, codes, Bool, true, false, Option, none, some, List, [], ◌∷◌, ◌++◌, ◌=ℕ=◌,
  ltb, if◌then◌else◌, not, any_of, length, join, Result, ok, err, ◌>>=◌, all_of,
}
use jman.Build.Workspace.{
  Scope, compile, runtime, provided, test, WorkspaceDependency, Manifest, Module, Stop, invalid,
  panicked, exhausted,
}

pub data Usage : Type 0 where
  compiling running testing : Usage

abbrev pub includes : Usage → Scope → Bool
includes compiling compile = true
includes compiling provided = true
includes compiling runtime = false
includes compiling test = false
includes running compile = true
includes running runtime = true
includes running provided = false
includes running test = false
includes testing scope = true

abbrev pub has : List ℕ → ℕ → Bool
has xs i = any_of (λ x. x =ℕ= i) xs

abbrev pub insert : ℕ → List ℕ → List ℕ
insert i [] = i ∷ []
insert i (x ∷ xs) =
    let rest = insert i xs in if i =ℕ= x then x ∷ xs else if ltb i x then i ∷ x ∷ xs else x ∷ rest

-- `&modules[index]`
unfoldable pub module_at : List Module → ℕ → Result Stop Module
module_at [] i = err panicked
module_at (m ∷ modules) zero = ok m
module_at (m ∷ modules) (suc i) = module_at modules i

abbrev pub used : Usage → List WorkspaceDependency → List ℕ
used usage [] = []
used usage (d ∷ dependencies) =
    let rest = used usage dependencies in if includes usage d.scope then d.index ∷ rest else rest

abbrev pub targets : List WorkspaceDependency → List ℕ
targets [] = []
targets (d ∷ dependencies) = d.index ∷ targets dependencies

-- `Vec::extend`; the last of `pending` stands in front.
abbrev pub push_all : List ℕ → List ℕ → List ℕ
push_all [] pending = pending
push_all (i ∷ indices) pending = push_all indices (i ∷ pending)

unfoldable pub close_over : ℕ → Usage → List Module → List ℕ → List ℕ → Result Stop (List ℕ)
unfolding module_at
close_over zero usage modules found pending = err exhausted
close_over (suc fuel) usage modules found [] = ok found
close_over (suc fuel) usage modules found (i ∷ pending) =
    let skip = close_over fuel usage modules found pending in
    let enter : Result Stop (List ℕ) = module_at modules i >>= λ m.
    close_over fuel usage modules (insert i found) (push_all (used usage m.dependencies) pending) in
    if has found i then skip else enter

-- All dependencies of all modules, each of which is taken from `pending` once at most.
abbrev pub size_of : List Module → ℕ
size_of [] = 0
size_of (m ∷ modules) = length m.dependencies + size_of modules

unfoldable pub transitive_dependencies : ℕ → List Module → Usage → Result Stop (List ℕ)
unfolding close_over
transitive_dependencies index modules usage = do
  m ← module_at modules index
  close_over (suc (length m.dependencies + size_of modules)) usage modules []
      (push_all (used usage m.dependencies) [])

-- From the first place of the index on.
unfoldable pub from_position : ℕ → List ℕ → Option (List ℕ)
from_position i [] = none
from_position i (x ∷ stack) =
    let rest = from_position i stack in if x =ℕ= i then some (x ∷ stack) else rest

-- A cycle that was found, or the modules that are complete.
pub data Search : Type 0 where
  cycle complete : List ℕ → Search

abbrev pub visit_each :
    (ℕ → List ℕ → Result Stop Search) → List ℕ → List ℕ → List ℕ → Result Stop Search
visit_each visit candidates [] done = ok (complete done)
visit_each visit candidates (d ∷ dependencies) done =
    let skip = visit_each visit candidates dependencies done in
    let enter : Result Stop Search = visit d done >>= λ outcome. elim outcome [
      | cycle found ↦ ok (cycle found)
      | complete more ↦ visit_each visit candidates dependencies more
    ] in
    if has candidates d then enter else skip

abbrev pub finish : ℕ → Search → Search
finish i (cycle found) = cycle found
finish i (complete done) = complete (insert i done)

unfoldable pub visit : ℕ → List Module → List ℕ → List ℕ → ℕ → List ℕ → Result Stop Search
unfolding module_at from_position
visit zero modules candidates stack i done = err exhausted
visit (suc fuel) modules candidates stack i done =
    let below : Result Stop Search = module_at modules i >>= λ m.
    visit_each (visit fuel modules candidates (stack ++ (i ∷ []))) candidates
      (targets m.dependencies) done
    >>= λ outcome. ok (finish i outcome) in
    elim (from_position i stack) [
      | some found ↦ ok (cycle (found ++ (i ∷ [])))
      | none ↦ if has done i then ok (complete done) else below
    ]

abbrev pub visit_roots :
    (ℕ → List ℕ → Result Stop Search) → List ℕ → List ℕ → List ℕ → Result Stop (List ℕ)
visit_roots visit candidates [] done = ok candidates
visit_roots visit candidates (i ∷ rest) done = visit i done >>= λ outcome. elim outcome [
  | cycle found ↦ ok found
  | complete more ↦ visit_roots visit candidates rest more
]

-- A stack holds each candidate once at most.
unfoldable pub module_dependency_cycle : List Module → List ℕ → Result Stop (List ℕ)
unfolding visit
module_dependency_cycle modules candidates =
    visit_roots (visit (suc (length candidates)) modules candidates []) candidates candidates []

abbrev pub is_ready : List ℕ → Module → Bool
is_ready done m = all_of (has done) (targets m.dependencies)

-- The remaining indices whose dependencies are all complete, and the others.
unfoldable pub split_ready : List Module → List ℕ → List ℕ → Result Stop (List ℕ × List ℕ)
unfolding module_at
split_ready modules done [] = ok ([], [])
split_ready modules done (i ∷ remaining) = module_at modules i >>= λ m.
    split_ready modules done remaining >>= λ (layer, waiting).
    ok (if is_ready done m then (i ∷ layer, waiting) else (layer, i ∷ waiting))

abbrev pub names_of : List Module → List ℕ → Result Stop (List Text)
names_of modules [] = ok []
names_of modules (i ∷ indices) =
    module_at modules i >>= λ m. names_of modules indices >>= λ names. ok (m.manifest.name ∷ names)

abbrev pub report_cycle : List Module → List ℕ → Result Stop (List (List ℕ))
report_cycle modules indices = names_of modules indices >>= λ names.
    err (invalid (codes "module dependency cycle detected: " ++ join (codes " -> ") names))

abbrev pub insert_all : List ℕ → List ℕ → List ℕ
insert_all [] done = done
insert_all (i ∷ layer) done = insert_all layer (insert i done)

unfoldable pub build_layers : ℕ → List Module → List ℕ → List ℕ → Result Stop (List (List ℕ))
unfolding split_ready module_dependency_cycle join
build_layers fuel modules [] done = ok []
build_layers zero modules (i ∷ remaining) done = err exhausted
build_layers (suc fuel) modules (i ∷ remaining) done =
    split_ready modules done (i ∷ remaining) >>= λ (layer, waiting). elim layer [
      | [] ↦ module_dependency_cycle modules (i ∷ remaining) >>= λ found. report_cycle modules found
      | j ∷ layer ↦ build_layers fuel modules waiting (insert_all (j ∷ layer) done) >>= λ layers.
          ok ((j ∷ layer) ∷ layers)
    ]

abbrev pub count_from : ℕ → List Module → List ℕ
count_from i [] = []
count_from i (m ∷ modules) = i ∷ count_from (suc i) modules

-- A layer takes one module at least.
unfoldable pub topological_layers : List Module → Result Stop (List (List ℕ))
unfolding build_layers
topological_layers modules = build_layers (length modules) modules (count_from 0 modules) []
