-- ===== src/Cli/Scripts.antt =====
-- crates/jman-cli/src/main.rs: `ScriptExecutor`. What processes change is a world that `run` passes on,
-- with whether the process succeeded; `directory_of` is the canonical working directory, if it is one
-- of the project. What is printed is left out.
pub mod Stack
pub mod Ends
use jman.Base.{
  ℕ, zero, suc, Text, text_eq, Bool, true, false, Option, none, some, List, [], ◌∷◌, ◌++◌, ◌==◌,
  if◌then◌else◌, is_empty, length, lookup, map_insert, Result, ok, err, ◌>>=◌,
}
use jman.Config.Scripts.{ScriptDefinition, Script, shell, structured, Scripts}

pub record Context : Type 0 where
  pub working_directory : Text
  pub environment : List (Text × Text)

pub data Invocation : Type 0 where
  of_shell : (source : Text) → (arguments : List Text) → Invocation
  of_program : (program : Text) → (configured arguments : List Text) → Invocation

-- The last is fuel that is used up.
pub data ScriptError : Type 0 where
  cycle_detected : List Text → ScriptError
  not_defined accepts_no_arguments no_working_directory no_executable process_failed :
      Text → ScriptError
  exhausted : ScriptError

unfoldable pub from_position : Text → List Text → Option (List Text)
from_position name [] = none
from_position name (active ∷ stack) =
    let rest = from_position name stack in if active == name then some (active ∷ stack) else rest

module _ {World : Type 0} (scripts : Scripts) (dry_run : Bool)
    (run : Text → Invocation → Context → World → World × Bool)
    (directory_of : Text → Option Text) where
  abbrev pub Outcome : Type 0
  Outcome = World × Result ScriptError (Unit {0})

  abbrev pub finish_process : Text → World × Bool → Outcome
  finish_process name (world, true) = (world, ok tt)
  finish_process name (world, false) = (world, err (process_failed name))

  abbrev pub run_process : Text → Invocation → Context → World → Outcome
  run_process name invocation context world =
      if dry_run then (world, ok tt) else finish_process name (run name invocation context world)

  abbrev pub execute_direct : Text → List Text → List Text → Context → World → Outcome
  execute_direct name [] arguments context world = (world, err (no_executable name))
  execute_direct name (program ∷ configured) arguments context world =
      run_process name (of_program program configured arguments) context world

  abbrev pub extend : List (Text × Text) → List (Text × Text) → List (Text × Text)
  extend environment [] = environment
  extend environment ((variable, value) ∷ more) =
      extend (map_insert variable value environment) more

  abbrev pub or_missing : Text → Option Text → Result ScriptError Text
  or_missing name none = err (no_working_directory name)
  or_missing name (some directory) = ok directory

  abbrev pub enter_directory : Text → Context → Option Text → Result ScriptError Text
  enter_directory name inherited none = ok inherited.working_directory
  enter_directory name inherited (some directory) = or_missing name (directory_of directory)

  abbrev pub layer_context : Text → ScriptDefinition → Context → Result ScriptError Context
  layer_context name definition inherited = do
    directory ← enter_directory name inherited definition.working_directory
    ok (record {
      working_directory = directory;
      environment = extend inherited.environment definition.environment;
    })

  -- The loop over the steps, which an error ends.
  abbrev pub then_continue : (World → Outcome) → Outcome → Outcome
  then_continue rest (world, err e) = (world, err e)
  then_continue rest (world, ok done) = rest world

  abbrev pub execute_steps : (Text → World → Outcome) → List Text → World → Outcome
  execute_steps execute_step [] world = (world, ok tt)
  execute_steps execute_step (step ∷ steps) world =
      then_continue (execute_steps execute_step steps) (execute_step step world)

  abbrev pub in_context : World → (Context → Outcome) → Result ScriptError Context → Outcome
  in_context world go (err e) = (world, err e)
  in_context world go (ok context) = go context

  abbrev pub execute_structured :
      (Context → Text → World → Outcome)
      → Text
      → ScriptDefinition
      → List Text
      → Context
      → World
      → Outcome
  execute_structured execute_step name definition arguments inherited world =
      let context = layer_context name definition inherited in
      let direct =
        in_context world (λ c. execute_direct name definition.command arguments c world) context in
      let each =
        in_context world (λ c. execute_steps (execute_step c) definition.steps world) context in
      if is_empty definition.steps
      then direct
      else if is_empty arguments
      then each
      else (world, err (accepts_no_arguments name))

  abbrev pub execute_found :
      (Context → Text → World → Outcome)
      → Text
      → List Text
      → Context
      → World
      → Option Script
      → Outcome
  execute_found execute_step name arguments inherited world none = (world, err (not_defined name))
  execute_found execute_step name arguments inherited world (some (shell source)) =
      run_process name (of_shell source arguments) inherited world
  execute_found execute_step name arguments inherited world (some (structured definition)) =
      execute_structured execute_step name definition arguments inherited world

  unfoldable pub execute : ℕ → List Text → Text → List Text → Context → World → Outcome
  unfolding from_position lookup
  execute zero stack name arguments inherited world = (world, err exhausted)
  execute (suc fuel) stack name arguments inherited world =
      let found =
        execute_found (λ context step w. execute fuel (stack ++ (name ∷ [])) step [] context w) name
          arguments inherited world (lookup name scripts) in
      elim (from_position name stack) [
        | none ↦ found
        | some cycle ↦ (world, err (cycle_detected (cycle ++ (name ∷ []))))
      ]

  -- A stack holds each script once at most.
  unfoldable pub run_script : Text → List Text → Context → World → Outcome
  unfolding execute
  run_script = execute (suc (length scripts)) []
