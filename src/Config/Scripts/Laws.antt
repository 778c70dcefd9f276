-- ===== src/Config/Scripts/Laws.antt =====
-- crates/jman-config/src/lib.rs: which scripts of a manifest are accepted, exactly.
use jman.Base.{
  ℕ, Text, text_eq, Bool, true, false, Option, none, some, List, [], ◌∷◌, ◌=ℕ=◌, ◌&&◌, ◌||◌, not,
  is_empty, all_of, any_of, contains, for_each, arith, ◌≡◌, refl, sym,
}
use jman.Config.Error.{accepted, accepted->>}
use jman.Config.Names.{is_absolute, has_parent_component}
use jman.Config.Generators.Validate.{is_bad_variable}
use jman.Config.Scripts.{
  ScriptDefinition, Script, shell, structured, Scripts, script_names, steps_of, same,
  first_is_empty, leaves_project, is_blank_option, check_variable, check_definition, check_step,
  check_steps, check_scripts, validate_scripts,
}

accepted-step_list :
    (scripts : Scripts) (name : Text) (steps : List Text)
    → accepted (for_each (check_step scripts name) steps)
      ≡ all_of (contains (script_names scripts)) steps
accepted-step_list scripts name [] = refl
accepted-step_list scripts name (s ∷ steps) = ground (arith, accepted-step_list scripts name steps)

-- Every step of every script is a script.
abbrev pub steps_defined : Scripts → Scripts → Bool
steps_defined scripts [] = true
steps_defined scripts ((name, script) ∷ more) =
    all_of (contains (script_names scripts)) (steps_of script) && steps_defined scripts more

accepted-check_steps :
    (scripts part : Scripts) → accepted (check_steps scripts part) ≡ steps_defined scripts part
unfolding check_steps
accepted-check_steps scripts [] = refl
accepted-check_steps scripts ((name, script) ∷ part) = ground (
  arith,
  accepted->> (for_each (check_step scripts name) (steps_of script)) (check_steps scripts part),
  accepted-step_list scripts name (steps_of script),
  accepted-check_steps scripts part,
)

-- A variable that a process can have.
abbrev pub is_variable : Text → Bool
is_variable v = not (is_empty v) && all_of (λ c. not (c =ℕ= b'=') && not (c =ℕ= 0)) v

abbrev pub stays_inside : Option Text → Bool
stays_inside none = true
stays_inside (some directory) = not (is_absolute directory) && not (has_parent_component directory)

none_of :
    (p q : ℕ → Bool) (s : Text)
    → not (any_of p s || any_of q s) ≡ all_of (λ c. not (p c) && not (q c)) s
none_of p q [] = refl
none_of p q (c ∷ s) = ground (arith, none_of p q s)

neither :
    (p q : ℕ → Bool) (s : Text)
    → not (any_of (λ c. p c || q c) s) ≡ all_of (λ c. not (q c) && not (p c)) s
neither p q [] = refl
neither p q (c ∷ s) = ground (arith, neither p q s)

no_step_empty :
    (steps : List Text) → not (any_of is_empty steps) ≡ all_of (λ s. not (is_empty s)) steps
no_step_empty [] = refl
no_step_empty (s ∷ steps) = ground (arith, no_step_empty steps)

is_bad_variable-is_variable : (v : Text) → not (is_bad_variable v) ≡ is_variable v
is_bad_variable-is_variable v = ground (arith, none_of (λ c. c =ℕ= b'=') (λ c. c =ℕ= 0) v)

accepted-variables :
    (name : Text) (environment : List (Text × Text))
    → accepted (for_each (check_variable name) environment)
      ≡ all_of (λ (v, value). is_variable v) environment
accepted-variables name [] = refl
accepted-variables name ((v, value) ∷ more) =
    ground (arith, is_bad_variable-is_variable v, accepted-variables name more)

-- A command or steps, not both.
abbrev pub runs_something : List Text → List Text → Bool
runs_something [] [] = false
runs_something [] (step ∷ steps) = true
runs_something (executable ∷ arguments) [] = not (is_empty executable)
runs_something (executable ∷ arguments) (step ∷ steps) = false

runs_something-same :
    (command steps : List Text)
    → (not (same (is_empty command) (is_empty steps)) && not (first_is_empty command))
      ≡ runs_something command steps
runs_something-same [] [] = refl
runs_something-same [] (s ∷ steps) = refl
runs_something-same (e ∷ command) [] = refl
runs_something-same (e ∷ command) (s ∷ steps) = refl

leaves_project-stays_inside : (o : Option Text) → not (leaves_project o) ≡ stays_inside o
leaves_project-stays_inside none = refl
leaves_project-stays_inside (some directory) = ground arith

module _ (is_whitespace is_control : ℕ → Bool) where
  abbrev pub is_described : Option Text → Bool
  is_described none = true
  is_described (some description) = not (all_of is_whitespace description)

  abbrev pub is_sound : Script → Bool
  is_sound (shell command) = not (all_of is_whitespace command)
  is_sound (structured s) =
      runs_something s.command s.steps
      && all_of (λ step. not (is_empty step)) s.steps
      && is_described s.description
      && stays_inside s.working_directory
      && all_of (λ (v, value). is_variable v) s.environment

  abbrev pub is_name : Text → Bool
  is_name name =
      not (is_empty name) && all_of (λ c. not (is_whitespace c) && not (is_control c)) name

  -- Each with a sound name, and sound on its own.
  abbrev pub are_sound : Scripts → Bool
  are_sound [] = true
  are_sound ((name, script) ∷ more) = is_name name && is_sound script && are_sound more

  is_blank_option-is_described :
      (o : Option Text) → not (is_blank_option is_whitespace is_control o) ≡ is_described o
  is_blank_option-is_described none = refl
  is_blank_option-is_described (some description) = refl

  accepted-definition :
      (name : Text) (s : ScriptDefinition)
      → accepted (check_definition is_whitespace is_control name s) ≡ is_sound (structured s)
  accepted-definition name s =
      rw
        (
          sym (runs_something-same s.command s.steps),
          sym (no_step_empty s.steps),
          sym (is_blank_option-is_described s.description),
          sym (leaves_project-stays_inside s.working_directory),
          sym (accepted-variables name s.environment),
        )
        (ground arith)

  accepted-check_scripts :
      (scripts : Scripts)
      → accepted (check_scripts is_whitespace is_control scripts) ≡ are_sound scripts
  unfolding check_scripts
  accepted-check_scripts [] = refl
  accepted-check_scripts ((name, shell command) ∷ more) =
      ground (arith, neither is_control is_whitespace name, accepted-check_scripts more)
  accepted-check_scripts ((name, structured s) ∷ more) = ground (
    arith,
    neither is_control is_whitespace name,
    accepted->> (check_definition is_whitespace is_control name s)
        (check_scripts is_whitespace is_control more),
    accepted-definition name s,
    accepted-check_scripts more,
  )

  -- Scripts are accepted exactly when every name is not empty and has no white space and no control
  -- character, every shell command is not blank, every other script has a command with an executable
  -- or else steps, none of them empty, a description that is not blank if any, a directory that is
  -- relative and does not go up if any, and variables with a name without `=` and NUL, and every step
  -- names a script.
  pub accepted-validate_scripts :
      (scripts : Scripts)
      → accepted (validate_scripts is_whitespace is_control scripts)
        ≡ (are_sound scripts && steps_defined scripts scripts)
  unfolding validate_scripts
  accepted-validate_scripts scripts = ground (
    arith,
    accepted->> (check_scripts is_whitespace is_control scripts) (check_steps scripts scripts),
    accepted-check_scripts scripts,
    accepted-check_steps scripts scripts,
  )
