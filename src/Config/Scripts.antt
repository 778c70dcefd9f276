-- ===== src/Config/Scripts.antt =====
-- crates/jman-config/src/lib.rs: `validate_scripts`. The classes of white space and of control
-- characters are those of Rust's standard library, taken as parameters. Paths are Unix paths.
pub mod Laws
use jman.Base.{
  ℕ, Text, codes, text_eq, Bool, true, false, Option, none, some, List, [], ◌∷◌, ◌++◌, map, ok,
  ◌>>◌, ◌&&◌, ◌||◌, not, if◌then◌else◌, is_empty, any_of, contains, for_each,
}
use jman.Config.Error.{Checked, check, invalid}
use jman.Config.Names.{quoted, is_absolute, has_parent_component}
use jman.Config.Audit.{is_blank}
use jman.Config.Generators.Validate.{is_bad_variable}

pub record ScriptDefinition : Type 0 where
  pub description : Option Text
  pub command : List Text
  pub steps : List Text
  pub working_directory : Option Text
  pub environment : List (Text × Text)

pub data Script : Type 0 where
  shell : Text → Script
  structured : ScriptDefinition → Script

abbrev pub Scripts : Type 0
Scripts = List (Text × Script)

abbrev pub script_names : Scripts → List Text
script_names = map (λ (name, script). name)

abbrev about : Text → Text → Checked
about name message = invalid (quoted (codes "script `") name (codes "` " ++ message))

abbrev pub first_is_empty : List Text → Bool
first_is_empty [] = false
first_is_empty (executable ∷ command) = is_empty executable

abbrev pub leaves_project : Option Text → Bool
leaves_project none = false
leaves_project (some directory) = is_absolute directory || has_parent_component directory

abbrev pub same : Bool → Bool → Bool
same true b = b
same false b = not b

-- The first bad variable, in the order of the map.
abbrev pub check_variable : Text → Text × Text → Checked
check_variable name (variable, value) =
    check (not (is_bad_variable variable))
      (about name (quoted (codes "has invalid environment variable `") variable (codes "`")))

module _ (is_whitespace is_control : ℕ → Bool) where
  abbrev pub is_blank_option : Option Text → Bool
  is_blank_option none = false
  is_blank_option (some description) = is_blank is_whitespace description

  abbrev pub check_definition : Text → ScriptDefinition → Checked
  check_definition name s =
      check (not (same (is_empty s.command) (is_empty s.steps)))
        (about name (codes "must define exactly one of `command` or `steps`"))
      >> check (not (first_is_empty s.command)) (about name (codes "executable cannot be empty"))
      >> check (not (any_of is_empty s.steps)) (about name (codes "contains an empty step"))
      >> check (not (is_blank_option s.description))
          (about name (codes "description cannot be empty"))
      >> check (not (leaves_project s.working_directory))
          (about name (codes "working-directory must stay within the project"))
      >> for_each (check_variable name) s.environment

  abbrev pub check_script : Text → Script → Checked
  check_script name (shell command) =
      check (not (is_blank is_whitespace command)) (about name (codes "command cannot be empty"))
  check_script name (structured s) = check_definition name s

  -- The first loop.
  unfoldable pub check_scripts : Scripts → Checked
  unfolding has_parent_component
  check_scripts [] = ok tt
  check_scripts ((name, script) ∷ more) =
      check (not (is_empty name || any_of (λ c. is_control c || is_whitespace c) name)) (
        invalid (
          quoted (codes "script name `") name
            (codes "` must be non-empty and contain no whitespace")))
      >> check_script name script
      >> check_scripts more

abbrev pub steps_of : Script → List Text
steps_of (shell command) = []
steps_of (structured s) = s.steps

abbrev pub check_step : Scripts → Text → Text → Checked
check_step scripts name step =
    check (contains (script_names scripts) step)
      (about name (quoted (codes "references undefined step `") step (codes "`")))

-- The second loop.
unfoldable pub check_steps : Scripts → Scripts → Checked
check_steps scripts [] = ok tt
check_steps scripts ((name, script) ∷ more) =
    for_each (check_step scripts name) (steps_of script) >> check_steps scripts more

unfoldable pub validate_scripts : (ℕ → Bool) → (ℕ → Bool) → Scripts → Checked
unfolding check_scripts check_steps text_eq
validate_scripts is_whitespace is_control scripts =
    check_scripts is_whitespace is_control scripts >> check_steps scripts scripts
