-- ===== src/Tests/Models.antt =====
-- crates/jman-resolver/src/model.rs and effective.rs: theorems at concrete data.
use jman.Base.{
  Text, codes, text_eq, true, none, some, List, [], ◌∷◌, ok, err, ◌≡◌, ◌↔◌, refl, contains, ◌==◌,
  ◌&&◌, lookup, arith, if◌then◌else◌, split_on,
}
use jman.Resolver.Run.{Run}
use jman.Resolver.Error.{offline_miss, Fallible}
use jman.Resolver.Coordinate.{pom, Coordinate, jar, parse, display, management_key, text_or_empty}
use jman.Resolver.Coordinate.Notation.{IsWritable, parse-display, parse-display-parse}
use jman.Resolver.Coordinate.Keys.{HasNoColon, management_key-eq_iff}
use jman.Resolver.Dependency
use jman.Resolver.Dependency.{Dependency, Exclusion}
use jman.Resolver.Graph.Candidates.{exclusion_eq}
use jman.Resolver.Effective.Interpolation.{interpolate_required}
use jman.Resolver.Effective.Collection.{DependencyCollection, new, replace, insert_if_absent}
use jman.Resolver.Effective.Collection.Refinement.{
  index_of, find, Binds, IsIndexed, new-IsIndexed, replace-refines, insert_if_absent-refines,
  is_none,
}
use jman.Resolver.Effective.Interpolation.Substitution.{interpolate_required-expression}
use jman.Resolver.Effective.Management.{apply_management}
use jman.Resolver.Effective.Management.Laws.{managed_by, apply_management-find}
use jman.Resolver.Effective.Build.{
  Source, Cache, build_coordinate, build_remote, build_fresh, build_raw,
}
use jman.Resolver.Effective.Build.Stages.{identity_of, split_management, assemble}
use jman.Resolver.Effective.Build.Memory.{build_remote-again}
use jman.Resolver.Pom.{Properties, RawPom, EffectivePom}
use jman.Resolver.Effective.Build.Termination.{build_coordinate-Ends}
use jman.Resolver.Effective.Build.Ends.{Ends}
use jman.Tests.Data.{compile_dependency, own_parent, self, model_of}

abbrev classified : Coordinate
classified = record {
  group = codes "org.example";
  artifact = codes "core";
  version = codes "1.0";
  extension = codes "zip";
  classifier = some (codes "dist");
}

classified-IsWritable : IsWritable classified
classified-IsWritable = record {
  group_part = (refl, refl);
  artifact_part = (refl, refl);
  version_part = (refl, refl);
  extension_part = (refl, refl);
  classifier_part = (refl, refl);
}

parse-display_example : parse (display classified) ≡ ok classified
parse-display_example = parse-display classified classified-IsWritable

explicit_jar : parse (codes "g:a:jar:1") ≡ parse (codes "g:a:1")
unfolding parse text_eq split_on jar
explicit_jar = refl

abbrev plain : Coordinate
plain = record {
  group = codes "g";
  artifact = codes "a";
  version = codes "1";
  extension = codes "jar";
  classifier = none;
}

plain_parsed : parse (codes "g:a:jar:1") ≡ ok plain
unfolding parse split_on
plain_parsed = refl

parse-display-parse_example : parse (display plain) ≡ ok plain
parse-display-parse_example = parse-display-parse (codes "g:a:jar:1") plain plain_parsed

plain-HasNoColon : HasNoColon plain
plain-HasNoColon = record {
  group_lacks = refl;
  artifact_lacks = refl;
  extension_lacks = refl;
  classifier_lacks = refl;
}

classified-HasNoColon : HasNoColon classified
classified-HasNoColon = record {
  group_lacks = refl;
  artifact_lacks = refl;
  extension_lacks = refl;
  classifier_lacks = refl;
}

management_key-eq_iff_example : (management_key plain ≡ management_key classified) ↔ (
    (plain.group ≡ classified.group)
    × (plain.artifact ≡ classified.artifact)
    × (plain.extension ≡ classified.extension)
    × (text_or_empty plain.classifier ≡ text_or_empty classified.classifier))
management_key-eq_iff_example =
    management_key-eq_iff plain classified plain-HasNoColon classified-HasNoColon

abbrev properties : Properties
properties = (codes "a", codes "${b}.1") ∷ (codes "b", codes "2") ∷ []

two_steps : interpolate_required (codes "v${a}") properties ≡ ok (codes "v2.1")
unfolding interpolate_required text_eq
two_steps = refl

interpolate_required-expression_example :
    interpolate_required (codes "v${b}.0") properties ≡ ok (codes "v2.0")
unfolding lookup text_eq
interpolate_required-expression_example =
    interpolate_required-expression (codes "v") (codes "b") (codes ".0") properties refl refl refl
      refl

abbrev one : Dependency
one = compile_dependency (codes "one") (codes "1")

abbrev newer_one : Dependency
newer_one = compile_dependency (codes "one") (codes "2")

abbrev two : Dependency
two = compile_dependency (codes "two") (codes "1")

abbrev items : List Dependency
items = one ∷ two ∷ newer_one ∷ []

abbrev key : Text
key = Dependency.management_key one

items-IsIndexed : IsIndexed (new items)
unfolding new
items-IsIndexed = new-IsIndexed items

replace-refines_example :
    (after : DependencyCollection) × (replace (new items) newer_one ≡ ok after)
    × Binds (new items) newer_one after
replace-refines_example = replace-refines (new items) newer_one items-IsIndexed

insert_if_absent-refines_example :
    (lookup key (insert_if_absent (new items) newer_one).indices
      ≡ index_of 0 key (insert_if_absent (new items) newer_one).items)
    × (find key (insert_if_absent (new items) newer_one).items ≡ (
        if Dependency.management_key newer_one == key && is_none (find key (new items).items)
        then some newer_one
        else find key (new items).items))
insert_if_absent-refines_example =
    insert_if_absent-refines (new items) newer_one key items-IsIndexed

apply_management-find_example :
    apply_management newer_one items (new items).indices
    ≡ ok (managed_by newer_one (find (Dependency.management_key newer_one) items))
apply_management-find_example = apply_management-find newer_one items

abbrev everything : Exclusion
everything = record { group = codes "*"; artifact = codes "*" }

abbrev no_logging : Exclusion
no_logging = record { group = codes "org"; artifact = codes "logging" }

abbrev load_self : Coordinate → Fallible Text
load_self c =
    if display c == display self then ok (codes "<project/>") else err (offline_miss (display c))

abbrev selfish : Source
selfish = record {
  load_pom = load_self;
  parse_pom = λ xml. ok own_parent;
  host = record { os = codes "linux"; arch = codes "x86_64" };
}

self-listed :
    (c : Coordinate) (xml : Text)
    → selfish.load_pom c ≡ ok xml
    → contains (display self ∷ []) (display c) ≡ true
self-listed c xml h = ground arith

build_coordinate-Ends_example : Ends (build_coordinate selfish 2 self [])
build_coordinate-Ends_example =
    build_coordinate-Ends selfish (display self ∷ []) self-listed 2 self [] (omega arith)

abbrev standing_alone : RawPom
standing_alone = record own_parent {
  parent = none;
  group = some (codes "org");
  version = some (codes "1");
}

abbrev alone : Source
alone = record selfish { parse_pom = λ xml. ok standing_alone }

abbrev first_build : Run (EffectivePom × Cache)
first_build = build_remote alone 1 [] self []

abbrev built : Run (EffectivePom × Cache) → EffectivePom × Cache
built (ok result) = result
built (err e) = (model_of [] [] [] none, [])

first_build_succeeds : first_build ≡ ok ((built first_build).0, (built first_build).1)
unfolding build_remote lookup build_fresh text_eq display pom build_raw identity_of
    interpolate_required split_management assemble
first_build_succeeds = refl

build_remote-again_example :
    build_remote alone 5 (codes "org:other:1" ∷ []) self (built first_build).1
    ≡ ok ((built first_build).0, (built first_build).1)
build_remote-again_example =
    build_remote-again alone 1 4 [] (codes "org:other:1" ∷ []) self [] (built first_build).0
      (built first_build).1 first_build_succeeds
