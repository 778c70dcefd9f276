-- ===== src/Cli/Scripts/Stack.antt =====
-- crates/jman-cli/src/main.rs: the scripts that are being executed, and their steps.
use jman.Base.{
  ℕ, ◌+◌, ◌≤◌, ◌<◌, Text, text_eq, true, false, none, some, List, [], ◌∷◌, ◌++◌, ◌==◌,
  if◌then◌else◌, lookup, Result, ok, err, length, contains, contains-append, all_of, arith, ◌≡◌,
  refl, sym, Bool-cases, inl, inr,
}
use jman.Config.Scripts.{Script, Scripts, script_names, steps_of}
use jman.Config.Scripts.Laws.{steps_defined}
use jman.Cli.Scripts.{
  ScriptError, cycle_detected, not_defined, accepts_no_arguments, no_working_directory,
  no_executable, process_failed, exhausted, from_position,
}

-- The first script has the second as a step.
abbrev pub Steps : Scripts → Text → Text → Type 0
Steps scripts a b =
    (script : Script) × (lookup a scripts ≡ some script) × (contains (steps_of script) b ≡ true)

-- Each script of the list has the next one as a step, and the last one the script behind the list.
abbrev pub Leads : Scripts → List Text → Text → Type 0
Leads scripts [] b = Unit
Leads scripts (a ∷ []) b = Steps scripts a b
Leads scripts (a ∷ c ∷ stack) b = Steps scripts a c × Leads scripts (c ∷ stack) b

-- A list whose last script is the first, in which each has the next as a step.
abbrev pub IsCycle : Scripts → List Text → Type 0
IsCycle scripts found =
    (a : Text) × (middle : List Text) × (found ≡ a ∷ middle ++ (a ∷ []))
    × Leads scripts (a ∷ middle) a

-- It ends, and fails for a cycle of steps, for arguments, a directory, a missing executable or a process
-- alone.
abbrev pub Ends : Scripts → Result ScriptError (Unit {0}) → Type 0
Ends scripts (ok done) = Unit
Ends scripts (err (cycle_detected found)) = IsCycle scripts found
Ends scripts (err (not_defined name)) = ⊥
Ends scripts (err (accepts_no_arguments name)) = Unit
Ends scripts (err (no_working_directory name)) = Unit
Ends scripts (err (no_executable name)) = Unit
Ends scripts (err (process_failed name)) = Unit
Ends scripts (err exhausted) = ⊥

pub unlisted : List Text → List Text → ℕ
unlisted stack [] = 0
unlisted stack (n ∷ names) = (if contains stack n then 0 else 1) + unlisted stack names

pub unlisted_nothing : (scripts : Scripts) → unlisted [] (script_names scripts) ≡ length scripts
unfolding unlisted
unlisted_nothing [] = refl
unlisted_nothing (s ∷ scripts) = omega (arith, unlisted_nothing scripts)

unlisted-snoc_le :
    (stack : List Text) (d : Text) (names : List Text)
    → unlisted (stack ++ (d ∷ [])) names ≤ unlisted stack names
unfolding unlisted
unlisted-snoc_le stack d [] = omega arith
unlisted-snoc_le stack d (n ∷ names) =
    ground (arith, contains-append stack (d ∷ []) n, unlisted-snoc_le stack d names)

same_text : (a b : Text) → (a == b) ≡ true → a ≡ b
same_text a b h = ground arith

equal_self : (a b : Text) → a ≡ b → (b == a) ≡ true
equal_self a b h = ground arith

pub unlisted-snoc :
    (stack : List Text) (d : Text) (names : List Text)
    → contains names d ≡ true
    → contains stack d ≡ false
    → unlisted (stack ++ (d ∷ [])) names < unlisted stack names
unfolding unlisted
unlisted-snoc stack d [] h n = cc
unlisted-snoc stack d (x ∷ names) h n = elim (Bool-cases (x == d)) [
  | inl e ↦
      let same = same_text x d e in
      let new : contains stack x ≡ false = cc in
      let back = equal_self x d same in
      ground (arith, new, back, contains-append stack (d ∷ []) x, unlisted-snoc_le stack d names)
  | inr e ↦ ground (arith, contains-append stack (d ∷ []) x, unlisted-snoc stack d names)
]

pub from_position-none :
    (name : Text) (stack : List Text)
    → from_position name stack ≡ none
    → contains stack name ≡ false
unfolding from_position
from_position-none name [] h = refl
from_position-none name (a ∷ stack) h = ground (arith, from_position-none name stack)

pub lookup-defined :
    (name : Text) (scripts : Scripts)
    → contains (script_names scripts) name ≡ true
    → (script : Script) × (lookup name scripts ≡ some script)
unfolding lookup
lookup-defined name [] h = cc
lookup-defined name ((n, script) ∷ scripts) h = elim (Bool-cases (n == name)) [
  | inl e ↦ (script, rw e refl)
  | inr e ↦ rw e (lookup-defined name scripts (ground arith))
]

pub lookup-steps_defined :
    (all scripts : Scripts) (name : Text) (script : Script)
    → steps_defined all scripts ≡ true
    → lookup name scripts ≡ some script
    → all_of (contains (script_names all)) (steps_of script) ≡ true
unfolding lookup
lookup-steps_defined all [] name script h e = cc
lookup-steps_defined all ((n, s) ∷ scripts) name script h e = elim (Bool-cases (n == name)) [
  | inl q ↦
      let here : all_of (contains (script_names all)) (steps_of s) ≡ true = ground arith in
      let which : s ≡ script = cc in cc
  | inr q ↦ lookup-steps_defined all scripts name script (ground arith) (rw q at e)
]

all_of-contains :
    (names xs : List Text) (x : Text)
    → all_of (contains names) xs ≡ true
    → contains xs x ≡ true
    → contains names x ≡ true
all_of-contains names [] x a h = cc
all_of-contains names (y ∷ xs) x a h = elim (Bool-cases (y == x)) [
  | inl e ↦ let same = same_text y x e in let here : contains names y ≡ true = ground arith in cc
  | inr e ↦ all_of-contains names xs x (ground arith) (ground arith)
]

-- A step of a script is a script.
pub Steps-defined :
    (scripts : Scripts) (a b : Text)
    → steps_defined scripts scripts ≡ true
    → Steps scripts a b
    → contains (script_names scripts) b ≡ true
Steps-defined scripts a b h (script, e, c) =
    all_of-contains (script_names scripts) (steps_of script) b
      (lookup-steps_defined scripts scripts a script h e) c

module _ (scripts : Scripts) where
  pub Leads-snoc :
      (stack : List Text) (a b : Text)
      → Leads scripts stack a
      → Steps scripts a b
      → Leads scripts (stack ++ (a ∷ [])) b
  Leads-snoc [] a b l n = n
  Leads-snoc (x ∷ []) a b l n = (l, n)
  Leads-snoc (x ∷ y ∷ stack) a b (m, l) n = (m, Leads-snoc (y ∷ stack) a b l n)

  Leads-tail :
      (x : Text) (stack : List Text) (b : Text)
      → Leads scripts (x ∷ stack) b
      → Leads scripts stack b
  Leads-tail x [] b l = tt
  Leads-tail x (y ∷ stack) b (n, l) = l

  pub from_position-IsCycle :
      (name : Text) (stack found : List Text)
      → from_position name stack ≡ some found
      → Leads scripts stack name
      → IsCycle scripts (found ++ (name ∷ []))
  unfolding from_position
  from_position-IsCycle name [] found h l = cc
  from_position-IsCycle name (x ∷ stack) found h l = elim (Bool-cases (x == name)) [
    | inl e ↦ let same = same_text x name e in (x, stack, rw (sym same) (cc), rw (sym same) at l)
    | inr e ↦ from_position-IsCycle name stack found (cc) (Leads-tail x stack name l)
  ]
