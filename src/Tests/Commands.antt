-- ===== src/Tests/Commands.antt =====
-- crates/jman-cli/src/main.rs: theorems at concrete data.
use jman.Base.{
  ℕ, suc, Text, codes, text_eq, Bool, true, none, Option, List, [], ◌∷◌, ◌≡◌, refl, err, contains,
  false,
}
use jman.Config.Scripts.{Script, shell, structured, Scripts, script_names}
use jman.Config.Scripts.Laws.{steps_defined}
use jman.Cli.Scripts.{Context, Invocation, cycle_detected, run_script}
use jman.Cli.Scripts.Ends.{run_script-Ends}
use jman.Cli.Scripts.Stack.{Ends}

abbrev steps : List Text → Script
steps names = structured (record {
  description = none;
  command = [];
  steps = names;
  working_directory = none;
  environment = [];
})

-- `all` runs `check` and then `again`, which runs `all`.
abbrev scripts : Scripts
scripts =
    (codes "again", steps (codes "all" ∷ []))
    ∷ (codes "all", steps (codes "check" ∷ codes "again" ∷ []))
    ∷ (codes "check", shell (codes "true"))
    ∷ []

-- The world counts the processes, all of which succeed.
abbrev count : Text → Invocation → Context → ℕ → ℕ × Bool
count name invocation context n = (suc n, true)

abbrev nowhere : Text → Option Text
nowhere directory = none

abbrev context : Context
context = record { working_directory = codes "/w"; environment = [] }

runs_once :
    run_script scripts false count nowhere (codes "all") [] context 0
    ≡ (1, err (cycle_detected (codes "all" ∷ codes "again" ∷ codes "all" ∷ [])))
unfolding run_script text_eq
runs_once = refl

defined : steps_defined scripts scripts ≡ true
unfolding text_eq
defined = refl

listed : contains (script_names scripts) (codes "all") ≡ true
unfolding text_eq
listed = refl

run_script-Ends_example :
    Ends scripts (run_script scripts false count nowhere (codes "all") [] context 0).1
run_script-Ends_example =
    run_script-Ends scripts false count nowhere (codes "all") [] context 0 defined listed
