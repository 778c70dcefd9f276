-- ===== src/Tests/Settings.antt =====
-- crates/jman-config/src/lib.rs: theorems at concrete data.
use jman.Base.{
  ℕ, Text, codes, text_eq, Bool, true, false, none, some, List, [], ◌∷◌, ◌≡◌, refl, arith, ok,
  all_of, contains, ◌&&◌, ◌=ℕ=◌, ◌||◌, ltb, ◌≤◌, ◌<◌, ◌^◌, parse_unsigned, u16_limit, take_while,
  is_ascii_digit,
}
use jman.Config.Error.{accepted}
use jman.Config.Generators.{
  Generator, Generators, GeneratorOutput, java_sources, main, names, check_order,
}
use jman.Config.Generators.Order.{IsOrder, Says, check_order-Says}
use jman.Config.Generators.Validate.{validate_generators, validate_generator_template}
use jman.Config.Generators.Templates.{
  Part, letter, dollar, variable, written, is_allowed, accepted-written,
}
use jman.Config.Generators.Sound.{validate_generators-ok}
use jman.Config.Names.{validate_ga}
use jman.Config.Java.{java_feature_version}
use jman.Config.Java.Laws.{java_feature_version-bounds}
use jman.Config.Dates.{is_iso_date, days_in}
use jman.Config.Dates.Laws.{is_iso_date-of_numbers}
use jman.Config.Audit.{AuditSuppression, validate_audit}
use jman.Config.Audit.Laws.{are_sound, accepted-validate_audit}
use jman.Config.Lockfile
use jman.Config.Lockfile.{Lockfile, LockedPackage, LockedWorkspaceDependency}
use jman.Config.Lockfile.Laws.{is_valid, accepted-validate}
use jman.Config.Scripts.{Script, Scripts, validate_scripts}
use jman.Config.Scripts.Laws
use jman.Config.Scripts.Laws.{steps_defined, accepted-validate_scripts}

abbrev output : Text × GeneratorOutput
output = (codes "sources", record { kind = java_sources; source_set = main })

abbrev generator : Text → List Text → Text × Generator
generator name depends_on = (
  name,
  record {
    command = codes "tool" ∷ [];
    arguments = [];
    inputs = codes "schema/api.json" ∷ [];
    allow_empty_inputs = false;
    depends_on = depends_on;
    working_directory = none;
    environment = [];
    inherit_environment = [];
    outputs = output ∷ [];
  },
)

abbrev generators : Generators
generators = generator (codes "code") (codes "schema" ∷ []) ∷ generator (codes "schema") [] ∷ []

abbrev circular : Generators
circular = generator (codes "a") (codes "b" ∷ []) ∷ generator (codes "b") (codes "a" ∷ []) ∷ []

check_order-Says_example : Says circular (check_order circular)
unfolding text_eq
check_order-Says_example = check_order-Says circular (refl, (refl, tt)) (refl, (refl, tt))

accepted_generators : validate_generators generators ≡ ok tt
unfolding validate_generators text_eq
accepted_generators = refl

validate_generators-ok_example :
    (order : List Text) × IsOrder generators order
    × (all_of (contains order) (names generators) ≡ true)
unfolding text_eq
validate_generators-ok_example =
    validate_generators-ok generators (refl, (refl, tt)) accepted_generators

abbrev parts : List Part
parts = letter b'a' ∷ dollar ∷ variable (codes "output.sources") ∷ variable (codes "input") ∷ []

abbrev one_generator : Generator
one_generator = (generator (codes "code") []).1

accepted-written_example :
    accepted (validate_generator_template (codes "code") (written parts) one_generator generators)
    ≡ all_of (is_allowed (codes "code") one_generator generators (written parts)) parts
accepted-written_example = accepted-written (codes "code") one_generator generators parts refl

leading_number : java_feature_version (codes "1.8.0_292") ≡ some 1
unfolding java_feature_version parse_unsigned
leading_number = refl

java_feature_version-bounds_example :
    (1 ≤ 1)
    × (1 < 2 ^ 16)
    × (parse_unsigned u16_limit (take_while is_ascii_digit (codes "1.8.0_292")) ≡ some 1)
java_feature_version-bounds_example = java_feature_version-bounds (codes "1.8.0_292") leading_number

-- A date whose year has five digits and whose month has one.
is_iso_date-of_numbers_example : is_iso_date (codes "12345-1-01") ≡ true
unfolding parse_unsigned days_in
is_iso_date-of_numbers_example =
    is_iso_date-of_numbers (codes "12345") (codes "1") (codes "01") refl refl refl refl refl refl
      refl (omega arith) (omega arith, omega arith) (omega arith, omega arith)

abbrev is_space : ℕ → Bool
is_space c = c =ℕ= 32 || c =ℕ= 9

abbrev is_low : ℕ → Bool
is_low c = ltb c 32

abbrev suppression : Text → AuditSuppression
suppression expires = record { id = codes "CVE-1"; reason = codes "not reached"; expires = expires }

accepted-validate_audit_example :
    accepted (validate_audit is_space (suppression (codes "2024-02-29") ∷ []))
    ≡ are_sound is_space [] (suppression (codes "2024-02-29") ∷ [])
accepted-validate_audit_example =
    accepted-validate_audit is_space (suppression (codes "2024-02-29") ∷ [])

abbrev locked : LockedPackage
locked = record {
  group = codes "org";
  artifact = codes "left";
  version = codes "1";
  extension = codes "jar";
  classifier = none;
  source = codes "central";
  pom_checksum = codes "sha256:1";
  artifact_checksum = some (codes "md5:2");
  artifact_size = none;
  dependencies = [];
  scopes = [];
  selected_parent = none;
}

abbrev edge : LockedWorkspaceDependency
edge = record {
  coordinate = codes "org:core";
  scope = codes "compile";
  path = codes "../core";
  version = codes "1";
}

abbrev lockfile : List LockedPackage → Lockfile
lockfile packages = record {
  lock_version = 3;
  manifest_hash = codes "sha256:a";
  workspace_hash = codes "sha256:b";
  platform = codes "linux";
  java_release = 21;
  packages = packages;
  workspace_dependencies = edge ∷ [];
  classpath = record { compile = []; runtime = []; test = []; processors = [] };
}

accepted-validate_example :
    accepted (Lockfile.validate is_space (lockfile (locked ∷ [])))
    ≡ is_valid is_space (lockfile (locked ∷ []))
accepted-validate_example = accepted-validate is_space (lockfile (locked ∷ []))

sound_lockfile : accepted (Lockfile.validate is_space (lockfile [])) ≡ true
unfolding Lockfile.validate text_eq validate_ga
sound_lockfile = refl

abbrev steps : List Text → Script
steps names = Script.structured (record {
  description = none;
  command = [];
  steps = names;
  working_directory = none;
  environment = [];
})

abbrev scripts : Scripts
scripts =
    (codes "all", steps (codes "lint" ∷ [])) ∷ (codes "lint", Script.shell (codes "make lint")) ∷ []

accepted-validate_scripts_example :
    accepted (validate_scripts is_space is_low scripts)
    ≡ (Laws.are_sound is_space is_low scripts && steps_defined scripts scripts)
accepted-validate_scripts_example = accepted-validate_scripts is_space is_low scripts

sound_scripts : accepted (validate_scripts is_space is_low scripts) ≡ true
unfolding validate_scripts
sound_scripts = refl
