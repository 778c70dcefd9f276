-- ===== src/Config/Generators/Validate.antt =====
-- crates/jman-config/src/lib.rs: `validate_generator`, `validate_generator_template`, and the whole
-- of `validate_generators`. Paths are Unix paths.
use jman.Base.{
  ℕ, zero, suc, Text, codes, text_eq, Bool, true, false, Option, none, some, List, [], ◌∷◌, ◌++◌,
  map, ok, ◌>>◌, ◌==◌, ◌=ℕ=◌, ◌&&◌, ◌||◌, not, if◌then◌else◌, is_empty, any_of, contains, length,
  split_once, strip_prefix, for_each, lookup, join,
}
use jman.Config.Error.{Checked, check, invalid}
use jman.Config.Names.{quoted, validate_generator_name, is_absolute, has_parent_component}
use jman.Config.Generators.{
  Generator, Generators, names, Outcome, ordered, stuck, exhausted, check_order,
}

abbrev pub about : Text → Text → Checked
about name message = invalid (quoted (codes "generator `") name (codes "` " ++ message))

abbrev is_missing : List Text → Bool
is_missing [] = true
is_missing (executable ∷ command) = is_empty executable

abbrev first_or_empty : List Text → Text
first_or_empty [] = []
first_or_empty (executable ∷ command) = executable

-- `text.contains("${")`
unfoldable pub has_expression : Text → Bool
has_expression [] = false
has_expression (c ∷ []) = false
has_expression (c ∷ d ∷ s) = (c =ℕ= b'$' && d =ℕ= b'{') || has_expression (d ∷ s)

abbrev has_char : ℕ → Text → Bool
has_char c = any_of (λ d. d =ℕ= c)

abbrev keys {ℓ} : {A : Type ℓ} → List (Text × A) → List Text
keys = map (λ (key, value). key)

abbrev escapes : Option Text → Bool
escapes none = false
escapes (some directory) = is_absolute directory || has_parent_component directory

abbrev is_reserved : Text → Bool
is_reserved v =
    v == codes "PATH"
    || v == codes "JAVA_HOME"
    || v == codes "JMAN_JAVA_HOME"
    || v == codes "JMAN_PROJECT_ROOT"
    || v == codes "JMAN_MODULE_ROOT"
    || v == codes "JMAN_GENERATOR_NAME"

abbrev pub is_bad_variable : Text → Bool
is_bad_variable v = is_empty v || (has_char b'=' v || has_char 0 v)

abbrev check_input : Text → Text → Checked
check_input name input =
    check
      (not (
        is_empty input
        || (has_char b'\\' input || (is_absolute input || has_parent_component input))))
      (about name (quoted (codes "input `") input (codes "` must be a module-relative `/` path")))

abbrev check_variable : Text → Text → Checked
check_variable name v =
    check (not (is_bad_variable v))
      (about name (quoted (codes "has invalid environment variable `") v (codes "`")))
    >> check (not (is_reserved v)) (
        about name (quoted (codes "cannot override reserved environment variable `") v (codes "`")))

abbrev pub check_dependency : Text → Generators → Text → Checked
check_dependency name generators d =
    check (not (d == name)) (about name (codes "cannot depend on itself"))
    >> check (contains (names generators) d)
        (about name (quoted (codes "references undefined generator `") d (codes "`")))

abbrev has_output : Option Generator → Text → Bool
has_output none output = false
has_output (some g) output = contains (keys g.outputs) output

abbrev known_output : Option Text → Generator → Bool
known_output none g = false
known_output (some output) g = contains (keys g.outputs) output

abbrev known_environment : Option Text → Generator → Bool
known_environment none g = false
known_environment (some v) g = contains (keys g.environment) v || contains g.inherit_environment v

abbrev known_reference : Option (Text × Text) → Generator → Generators → Bool
known_reference none g generators = false
known_reference (some (d, output)) g generators =
    contains g.depends_on d && has_output (lookup d generators) output

abbrev known_dependency : Option Text → Generator → Generators → Bool
known_dependency none g generators = false
known_dependency (some reference) g generators =
    known_reference (split_once b'.' reference) g generators

unfoldable pub is_known_variable : Text → Generator → Generators → Bool
unfolding split_once lookup
is_known_variable v g generators =
    v == codes "project.root"
    || v == codes "module.root"
    || v == codes "generator.name"
    || v == codes "input"
    || v == codes "java.home"
    || known_output (strip_prefix (codes "output.") v) g
    || known_environment (strip_prefix (codes "env.") v) g
    || known_dependency (strip_prefix (codes "dependency.") v) g generators

abbrev pub check_expression : Text → Text → Generator → Generators → Text → Checked
check_expression name template g generators v =
    check (is_known_variable v g generators)
      (about name (quoted (codes "uses unknown expression `${") v (codes "}`")))
    >> check (not (v == codes "input" && not (template == codes "${input}")))
        (about name (codes "must use `${input}` as a complete argument"))

-- What stands at a dollar sign: `$$`, `${` without `}`, `${v}`, or none of these.
pub data Dollar : Type 0 where
  plain escaped unterminated : Dollar
  expression : Text → Dollar

abbrev pub expression_of : Option (Text × Text) → Dollar
expression_of none = unterminated
expression_of (some (v, after)) = expression v

abbrev pub dollar_at : ℕ → Text → Dollar
dollar_at c [] = plain
dollar_at c (d ∷ s) =
    if not (c =ℕ= b'$')
    then plain
    else if d =ℕ= b'$'
    then escaped
    else if d =ℕ= b'{'
    then expression_of (split_once b'}' s)
    else plain

-- How many characters after the first one belong to it: of an expression, its braces too.
abbrev pub width : Dollar → ℕ
width plain = 0
width escaped = 1
width unterminated = 0
width (expression v) = suc (suc (length v))

abbrev pub check_dollar : Text → Text → Generator → Generators → Dollar → Checked
check_dollar name template g generators plain = ok tt
check_dollar name template g generators escaped = ok tt
check_dollar name template g generators unterminated =
    about name (quoted (codes "contains an unterminated expression in `") template (codes "`"))
check_dollar name template g generators (expression v) =
    check_expression name template g generators v

-- The loop of `validate_generator_template` over what remains of the template, after a number of
-- characters that are behind it already. The source jumps to the next dollar sign.
unfoldable pub check_template : ℕ → Text → Text → Generator → Generators → Text → Checked
check_template skip name template g generators [] = ok tt
check_template (suc skip) name template g generators (c ∷ s) =
    check_template skip name template g generators s
check_template zero name template g generators (c ∷ s) =
    let here = dollar_at c s in
    check_dollar name template g generators here
    >> check_template (width here) name template g generators s

unfoldable pub validate_generator_template : Text → Text → Generator → Generators → Checked
unfolding check_template is_known_variable split_once
validate_generator_template name template g generators =
    check_template 0 name template g generators template

unfoldable pub validate_generator : Text → Generator → Generators → Checked
unfolding validate_generator_name validate_generator_template has_expression has_parent_component
validate_generator name g generators =
    validate_generator_name (codes "generator") name
    >> check (not (is_missing g.command))
        (about name (codes "command must start with a non-empty executable"))
    >> check (not (has_expression (first_or_empty g.command)))
        (about name (codes "executable cannot contain expressions"))
    >> check (not (is_empty g.outputs)) (about name (codes "must declare at least one output"))
    >> for_each (validate_generator_name (codes "generator output")) (keys g.outputs)
    >> check (not (escapes g.working_directory))
        (about name (codes "working-directory must stay within the module"))
    >> for_each (check_input name) g.inputs
    >> for_each (check_variable name) (keys g.environment ++ g.inherit_environment)
    >> for_each (check_dependency name generators) g.depends_on
    >> for_each (λ template. validate_generator_template name template g generators)
        (g.command ++ g.arguments)

-- The report of the search.
abbrev pub report : Outcome → Checked
report (ordered complete) = ok tt
report (stuck cycle) =
    invalid (codes "generator dependency cycle detected involving: " ++ join (codes ", ") cycle)
report exhausted = invalid []

unfoldable pub validate_all : Generators → Generators → Checked
unfolding validate_generator
validate_all generators [] = ok tt
validate_all generators ((name, g) ∷ more) =
    validate_generator name g generators >> validate_all generators more

unfoldable pub validate_generators : Generators → Checked
unfolding validate_all check_order join text_eq
validate_generators generators =
    validate_all generators generators >> report (check_order generators)
