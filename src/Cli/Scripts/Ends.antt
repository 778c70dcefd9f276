-- ===== src/Cli/Scripts/Ends.antt =====
-- crates/jman-cli/src/main.rs: the execution of scripts ends.
use jman.Base.{
  ℕ, zero, suc, ◌<◌, Text, text_eq, Bool, true, false, Option, none, some, List, [], ◌∷◌, ◌++◌,
  if◌then◌else◌, is_empty, Result, ok, err, ◌>>=◌, length, contains, arith, ◌≡◌, Option-cases, inl,
  inr,
}
use jman.Config.Scripts.{
  ScriptDefinition, Script, shell, structured, Scripts, script_names, steps_of,
}
use jman.Config.Scripts.Laws.{steps_defined}
use jman.Cli.Scripts.{
  Context, Invocation, of_shell, of_program, ScriptError, accepts_no_arguments, from_position,
  finish_process, run_process, execute_direct, or_missing, enter_directory, layer_context, extend,
  then_continue, execute_steps, in_context, execute_found, execute, run_script,
}
use jman.Cli.Scripts.Stack.{
  Leads, Ends, unlisted, unlisted_nothing, unlisted-snoc, lookup-defined, from_position-none,
  Steps-defined, Leads-snoc, from_position-IsCycle,
}

contains_first : (x : Text) (xs : List Text) → contains (x ∷ xs) x ≡ true
contains_first x xs = ground arith

module _ {World : Type 0} (scripts : Scripts) (dry_run : Bool)
    (run : Text → Invocation → Context → World → World × Bool)
    (directory_of : Text → Option Text) where
  abbrev EndsWell : World × Result ScriptError (Unit {0}) → Type 0
  EndsWell (world, m) = Ends scripts m

  run_process-EndsWell :
      (name : Text) (invocation : Invocation) (context : Context) (world : World)
      → EndsWell (run_process scripts dry_run run directory_of name invocation context world)
  run_process-EndsWell name invocation context world =
      chosen dry_run (run name invocation context world)
    where
      finished :
          (out : World × Bool) → EndsWell (finish_process scripts dry_run run directory_of name out)
      finished (w, true) = tt
      finished (w, false) = tt

      chosen :
          (dry : Bool) (out : World × Bool)
          → EndsWell (
              if dry
              then (world, ok tt)
              else finish_process scripts dry_run run directory_of name out)
      chosen true out = tt
      chosen false out = finished out

  execute_direct-EndsWell :
      (name : Text) (command arguments : List Text) (context : Context) (world : World)
      → EndsWell
          (execute_direct scripts dry_run run directory_of name command arguments context world)
  execute_direct-EndsWell name [] arguments context world = tt
  execute_direct-EndsWell name (program ∷ configured) arguments context world =
      run_process-EndsWell name (of_program program configured arguments) context world

  then_continue-EndsWell :
      (rest : World → World × Result ScriptError (Unit {0}))
      (out : World × Result ScriptError (Unit {0}))
      → ((w : World) → EndsWell (rest w))
      → EndsWell out
      → EndsWell (then_continue scripts dry_run run directory_of rest out)
  then_continue-EndsWell rest (w, ok done) h k = h w
  then_continue-EndsWell rest (w, err e) h k = k

  execute_steps-EndsWell :
      (execute_step : Text → World → World × Result ScriptError (Unit {0})) (steps : List Text)
      (world : World)
      → ((step : Text) (w : World) → contains steps step ≡ true → EndsWell (execute_step step w))
      → EndsWell (execute_steps scripts dry_run run directory_of execute_step steps world)
  execute_steps-EndsWell execute_step [] world h = tt
  execute_steps-EndsWell execute_step (step ∷ steps) world h =
      then_continue-EndsWell (execute_steps scripts dry_run run directory_of execute_step steps)
        (execute_step step world)
        (λ w. execute_steps-EndsWell execute_step steps w (λ s v c. h s v (ground arith)))
        (h step world (contains_first step steps))

  in_context-EndsWell :
      (name : Text) (definition : ScriptDefinition) (inherited : Context) (world : World)
      (go : Context → World × Result ScriptError (Unit {0}))
      → ((c : Context) → EndsWell (go c))
      → EndsWell (
          in_context scripts dry_run run directory_of world go
            (layer_context scripts dry_run run directory_of name definition inherited))
  in_context-EndsWell name definition inherited world go h = entered definition.working_directory
    where
      layered : Text → Result ScriptError Context
      layered d = ok (record {
        working_directory = d;
        environment =
            extend scripts dry_run run directory_of inherited.environment definition.environment;
      })

      found :
          (o : Option Text)
          → EndsWell (
              in_context scripts dry_run run directory_of world go
                (or_missing scripts dry_run run directory_of name o >>= layered))
      found none = tt
      found (some d) = h _

      entered :
          (o : Option Text)
          → EndsWell (
              in_context scripts dry_run run directory_of world go
                (enter_directory scripts dry_run run directory_of name inherited o >>= layered))
      entered none = h _
      entered (some d) = found (directory_of d)

  execute_found-EndsWell :
      (execute_step : Context → Text → World → World × Result ScriptError (Unit {0})) (name : Text)
      (arguments : List Text) (inherited : Context) (world : World) (script : Script)
      → ((context : Context) (step : Text) (w : World)
          → contains (steps_of script) step ≡ true
          → EndsWell (execute_step context step w))
      → EndsWell (
          execute_found scripts dry_run run directory_of execute_step name arguments inherited world
            (some script))
  execute_found-EndsWell execute_step name arguments inherited world (shell source) h =
      run_process-EndsWell name (of_shell source arguments) inherited world
  execute_found-EndsWell execute_step name arguments inherited world (structured definition) h =
      chosen (is_empty definition.steps) (is_empty arguments) _ _
        (in_context-EndsWell name definition inherited world _
          (λ c. execute_direct-EndsWell name definition.command arguments c world))
        (in_context-EndsWell name definition inherited world _
          (λ c. execute_steps-EndsWell (execute_step c) definition.steps world (h c)))
    where
      chosen :
          (direct_only no_arguments : Bool) (direct each : World × Result ScriptError (Unit {0}))
          → EndsWell direct
          → EndsWell each
          → EndsWell (
              if direct_only
              then direct
              else if no_arguments
              then each
              else (world, err (accepts_no_arguments name)))
      chosen true b direct each p q = p
      chosen false true direct each p q = q
      chosen false false direct each p q = tt

  execute-EndsWell :
      (fuel : ℕ) (stack : List Text) (name : Text) (arguments : List Text) (inherited : Context)
      (world : World)
      → steps_defined scripts scripts ≡ true
      → contains (script_names scripts) name ≡ true
      → Leads scripts stack name
      → unlisted stack (script_names scripts) < fuel
      → EndsWell
          (execute scripts dry_run run directory_of fuel stack name arguments inherited world)
  unfolding execute
  execute-EndsWell zero stack name arguments inherited world v d l k = absurd (omega (arith, k))
  execute-EndsWell (suc fuel) stack name arguments inherited world v d l k =
      elim (Option-cases (from_position name stack)) [
        | inr (found, e) ↦ rw (execute, e) (from_position-IsCycle scripts name stack found e l)
        | inl e ↦
            let (script, at) = lookup-defined name scripts d in
            rw (execute, e, at)
              (execute_found-EndsWell _ name arguments inherited world script (λ context step w c.
                execute-EndsWell fuel (stack ++ (name ∷ [])) step [] context w v
                  (Steps-defined scripts name step v (script, at, c))
                  (Leads-snoc scripts stack name step l (script, at, c))
                  (omega (
                    arith,
                    k,
                    unlisted-snoc stack name (script_names scripts) d
                        (from_position-none name stack e),
                  ))))
      ]

  -- Where every step names a script, as in a manifest that is accepted, the execution of a script ends,
  -- whatever the processes do: with success, or with an error of a process, a directory, an executable
  -- or of arguments, or with a cycle of scripts each of which has the next as a step. It never lacks a
  -- script.
  pub run_script-Ends :
      (name : Text) (arguments : List Text) (inherited : Context) (world : World)
      → steps_defined scripts scripts ≡ true
      → contains (script_names scripts) name ≡ true
      → Ends scripts (run_script scripts dry_run run directory_of name arguments inherited world).1
  unfolding run_script
  run_script-Ends name arguments inherited world v d =
      execute-EndsWell (suc (length scripts)) [] name arguments inherited world v d tt
        (omega (arith, unlisted_nothing scripts))
