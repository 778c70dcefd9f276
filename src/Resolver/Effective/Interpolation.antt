-- ===== src/Resolver/Effective/Interpolation.antt =====
-- crates/jman-resolver/src/effective.rs: `${…}` expressions in texts and in dependencies.
pub mod Substitution
use jman.Base.{
  ℕ, zero, suc, ◌-◌, Text, codes, text_eq, Bool, true, false, Option, none, some, [], ◌∷◌, ◌++◌,
  map, ok, err, ◌>>=◌, ◌==◌, ◌=ℕ=◌, ◌&&◌, ◌||◌, not, if◌then◌else◌, starts_with, length, split_once,
  lookup, map_insert, collect_results,
}
use jman.Resolver.Error.{Fallible, unresolved_property}
use jman.Resolver.Dependency.{Dependency, Exclusion}
use jman.Resolver.Pom.{Properties, Parent}

-- What follows the first `${`.
unfoldable pub after_marker : Text → Option Text
after_marker [] = none
after_marker (c ∷ []) = none
after_marker (c ∷ d ∷ s) =
    let rest = after_marker (d ∷ s) in if c =ℕ= b'$' && d =ℕ= b'{' then some s else rest

abbrev before_brace : Option (Text × Text) → Option Text
before_brace none = none
before_brace (some (before, after)) = some before

abbrev property_in : Option Text → Option Text
property_in none = none
property_in (some remainder) = before_brace (split_once b'}' remainder)

unfoldable pub first_property : Text → Option Text
unfolding after_marker split_once
first_property value = property_in (after_marker value)

-- `str::replace` of a pattern that is not empty, from left to right; `skip` counts what is left of
-- an occurrence that was replaced.
unfoldable pub replace_from : ℕ → Text → Text → Text → Text
replace_from skip pattern_text replacement [] = []
replace_from (suc skip) pattern_text replacement (c ∷ s) =
    replace_from skip pattern_text replacement s
replace_from zero pattern_text replacement (c ∷ s) = elim (starts_with pattern_text (c ∷ s)) [
  | true ↦ replacement ++ replace_from (length pattern_text - 1) pattern_text replacement s
  | false ↦ c ∷ replace_from zero pattern_text replacement s
]

abbrev pub marker_of : Text → Text
marker_of property = b'$' ∷ b'{' ∷ property ++ (b'}' ∷ [])

-- The rounds of `interpolate_loose`.
unfoldable pub interpolate_rounds : ℕ → Properties → Text → Text
interpolate_rounds zero properties result = result
interpolate_rounds (suc rounds) properties result = elim (first_property result) [
  | none ↦ result
  | some property ↦ elim (lookup property properties) [
    | none ↦ result
    | some replacement ↦
        interpolate_rounds rounds properties
          (replace_from 0 (marker_of property) replacement result)
  ]
]

unfoldable pub interpolate_loose : Text → Properties → Text
unfolding interpolate_rounds first_property lookup replace_from
interpolate_loose value properties = interpolate_rounds 32 properties value

abbrev pub reject_property : Text → Text → Option Text → Fallible Text
reject_property value result none = ok result
reject_property value result (some property) = err (unresolved_property property value)

unfoldable pub interpolate_required : Text → Properties → Fallible Text
unfolding interpolate_loose
interpolate_required value properties =
    let result = interpolate_loose value properties in
    reject_property value result (first_property result)

-- `.map(…).transpose()?`
abbrev required_option : Option Text → Properties → Fallible (Option Text)
required_option none properties = ok none
required_option (some value) properties = do
  result ← interpolate_required value properties
  ok (some result)

abbrev loose_option : Option Text → Properties → Option Text
loose_option none properties = none
loose_option (some value) properties = some (interpolate_loose value properties)

abbrev required_exclusion : Properties → Exclusion → Fallible Exclusion
required_exclusion properties e = do
  group ← interpolate_required e.group properties
  artifact ← interpolate_required e.artifact properties
  ok (record { group = group; artifact = artifact })

unfoldable pub interpolate_dependency : Dependency → Properties → Fallible Dependency
unfolding interpolate_required
interpolate_dependency d properties = do
  group ← interpolate_required d.group properties
  artifact ← interpolate_required d.artifact properties
  version ← required_option d.version properties
  scope ← interpolate_required d.scope properties
  dependency_type ← interpolate_required d.dependency_type properties
  classifier ← required_option d.classifier properties
  exclusions ← collect_results (required_exclusion properties) d.exclusions
  ok (record d {
    group = group;
    artifact = artifact;
    version = version;
    scope = scope;
    dependency_type = dependency_type;
    classifier = classifier;
    exclusions = exclusions;
  })

unfoldable pub interpolate_managed_dependency : Dependency → Properties → Dependency
unfolding interpolate_loose
interpolate_managed_dependency d properties = record d {
  group = interpolate_loose d.group properties;
  artifact = interpolate_loose d.artifact properties;
  version = loose_option d.version properties;
  scope = interpolate_loose d.scope properties;
  dependency_type = interpolate_loose d.dependency_type properties;
  classifier = loose_option d.classifier properties;
  exclusions =
      map
        (λ e. record {
          group = interpolate_loose e.group properties;
          artifact = interpolate_loose e.artifact properties;
        })
        d.exclusions;
}

-- `entry(key).or_insert_with(…)`
abbrev insert_absent : Text → Text → Properties → Properties
insert_absent key value properties = elim (lookup key properties) [
  | none ↦ map_insert key value properties
  | some old ↦ properties
]

unfoldable pub detected_os : Text → Text
detected_os os = if os == codes "macos" then codes "osx" else os

unfoldable pub detected_arch : Text → Text
detected_arch arch =
    if arch == codes "aarch64"
    then codes "aarch_64"
    else if arch == codes "x86"
    then codes "x86_32"
    else if arch == codes "arm"
    then codes "arm_32"
    else arch

-- `insert_platform_properties`, for the `OS` and `ARCH` that the program was compiled for.
unfoldable pub insert_platform_properties : Text → Text → Properties → Properties
unfolding detected_os detected_arch lookup map_insert
insert_platform_properties host_os host_arch properties =
    let os = detected_os host_os in
    let arch = detected_arch host_arch in
    insert_absent (codes "os.detected.classifier") (os ++ (b'-' ∷ arch)) (
      insert_absent (codes "os.detected.arch") arch
        (insert_absent (codes "os.detected.name") os properties))

abbrev insert_parent : Option Parent → Properties → Properties
insert_parent none properties = properties
insert_parent (some parent) properties =
    map_insert (codes "project.parent.version") parent.version (
      map_insert (codes "project.parent.artifactId") parent.artifact
        (map_insert (codes "project.parent.groupId") parent.group properties))

abbrev insert_prefixed : Text → Text → Text → Text → Properties → Properties
insert_prefixed prefix group artifact version properties =
    map_insert (prefix ++ codes ".version") version (
      map_insert (prefix ++ codes ".artifactId") artifact
        (map_insert (prefix ++ codes ".groupId") group properties))

unfoldable pub insert_project_properties :
    Text → Text → Text → Option Parent → Properties → Properties
unfolding map_insert
insert_project_properties group artifact version parent properties = insert_parent parent (
    map_insert (codes "version") version (
      map_insert (codes "artifactId") artifact (
        map_insert (codes "groupId") group (
          insert_prefixed (codes "pom") group artifact version
            (insert_prefixed (codes "project") group artifact version properties)))))

-- One pass of `resolve_property_map` over the values, by the map before the pass.
abbrev resolve_values : Properties → Properties → Properties
resolve_values snapshot = map (λ (key, value). (key, interpolate_loose value snapshot))

abbrev changes : Properties → Properties → Bool
changes snapshot [] = false
changes snapshot ((key, value) ∷ properties) =
    not (interpolate_loose value snapshot == value) || changes snapshot properties

unfoldable pub resolve_rounds : ℕ → Properties → Properties
resolve_rounds zero properties = properties
resolve_rounds (suc rounds) properties =
    let again = resolve_rounds rounds (resolve_values properties properties) in
    if changes properties properties then again else resolve_values properties properties

unfoldable pub resolve_property_map : Properties → Properties
unfolding resolve_rounds interpolate_loose
resolve_property_map properties = resolve_rounds 32 properties
