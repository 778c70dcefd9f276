-- ===== src/Config/Generators.antt =====
-- crates/jman-config/src/lib.rs: `validate_generators`, of which `Validate` holds the checks of one
-- generator and this file the search for a dependency cycle.
pub mod Remaining
pub mod Order
pub mod Validate
pub mod Sound
pub mod Templates
use jman.Base.{
  ℕ, zero, suc, Text, codes, text_eq, Bool, true, false, Option, none, some, List, [], ◌∷◌, ◌++◌,
  map, ok, ◌>>◌, ◌&&◌, not, if◌then◌else◌, is_empty, all_of, contains, length, leb, join, for_each,
}
use jman.Config.Error.{Checked, invalid}

pub data GeneratorOutputKind : Type 0 where
  java_sources resources : GeneratorOutputKind

pub data GeneratorSourceSet : Type 0 where
  main test integration_test : GeneratorSourceSet

pub record GeneratorOutput : Type 0 where
  pub kind : GeneratorOutputKind
  pub source_set : GeneratorSourceSet

pub record Generator : Type 0 where
  pub command : List Text
  pub arguments : List Text
  pub inputs : List Text
  pub allow_empty_inputs : Bool
  pub depends_on : List Text
  pub working_directory : Option Text
  pub environment : List (Text × Text)
  pub inherit_environment : List Text
  pub outputs : List (Text × GeneratorOutput)

abbrev pub Generators : Type 0
Generators = List (Text × Generator)

abbrev pub names : Generators → List Text
names = map (λ (name, g). name)

-- The names that are not complete, with all dependencies complete.
unfoldable pub ready : List Text → Generators → List Text
ready complete [] = []
ready complete ((name, g) ∷ generators) =
    let rest = ready complete generators in
    if not (contains complete name) && all_of (contains complete) g.depends_on
    then name ∷ rest
    else rest

-- The names that are not complete.
unfoldable pub incomplete : List Text → Generators → List Text
incomplete complete [] = []
incomplete complete ((name, g) ∷ generators) =
    let rest = incomplete complete generators in
    if contains complete name then rest else name ∷ rest

-- `complete.insert(name)`, in a loop.
unfoldable pub insert_names : List Text → List Text → List Text
insert_names complete [] = complete
insert_names complete (name ∷ more) =
    insert_names (if contains complete name then complete else name ∷ complete) more

-- How the loop ends: with all names in the order of completion, the last first, or at a round with
-- nothing ready, with the names that remain.
pub data Outcome : Type 0 where
  ordered : List Text → Outcome
  stuck : List Text → Outcome
  exhausted : Outcome

unfoldable pub complete_rounds : ℕ → Generators → List Text → Outcome
complete_rounds zero generators complete =
    if leb (length generators) (length complete) then ordered complete else exhausted
complete_rounds (suc fuel) generators complete =
    let next = ready complete generators in
    let again = complete_rounds fuel generators (insert_names complete next) in
    if leb (length generators) (length complete)
    then ordered complete
    else if is_empty next
    then stuck (incomplete complete generators)
    else again

-- The `while` loop; each round completes a name, so as many rounds as names are enough.
unfoldable pub check_order : Generators → Outcome
unfolding complete_rounds ready incomplete insert_names
check_order generators = complete_rounds (length generators) generators []
