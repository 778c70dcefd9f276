-- ===== src/Resolver/Version/Analysis.antt =====
-- crates/jman-resolver/src/version.rs: `analyze_versions` and `select_newer`.
use jman.Base.{
  Text, text_eq, Bool, true, false, Option, none, some, List, [], ◌∷◌, ◌==◌, ◌=ℕ=◌, ◌&&◌, ◌||◌, not,
  if◌then◌else◌, Ordering, ltb,
}
use jman.Resolver.Version.{
  VersionChange, patch, minor, major, other, NumericVersion, numeric_version, compare_versions,
  is_prerelease,
}

abbrev pub is_greater : Ordering → Bool
is_greater Ordering.gt = true
is_greater _ = false

abbrev newer_than : Text → Option Text → Bool
newer_than candidate none = true
newer_than candidate (some current) = is_greater (compare_versions candidate current)

unfoldable pub select_newer : Option Text → Text → Option Text
select_newer selected candidate = if newer_than candidate selected then some candidate else selected

-- The candidates that the loop does not pass over.
unfoldable pub is_update : Text → Bool → Text → Bool
is_update current include_prerelease candidate =
    not (candidate == current)
    && (include_prerelease || not (is_prerelease candidate))
    && is_greater (compare_versions candidate current)

-- The `match` on the numeric versions.
unfoldable pub classify : Option NumericVersion → Option NumericVersion → VersionChange
classify none candidate = other
classify (some current) none = other
classify (some current) (some candidate) =
    if candidate.major =ℕ= current.major && candidate.minor =ℕ= current.minor
    then patch
    else if candidate.major =ℕ= current.major && ltb current.minor candidate.minor
    then minor
    else if ltb current.major candidate.major
    then major
    else other

-- The four variables of the loop.
pub record Selections : Type 0 where
  pub patch : Option Text
  pub minor : Option Text
  pub major : Option Text
  pub other : Option Text

abbrev pub slot : VersionChange → Selections → Option Text
slot patch s = s.patch
slot minor s = s.minor
slot major s = s.major
slot other s = s.other

abbrev pub put : VersionChange → Text → Selections → Selections
put patch v s = record s { patch = select_newer s.patch v }
put minor v s = record s { minor = select_newer s.minor v }
put major v s = record s { major = select_newer s.major v }
put other v s = record s { other = select_newer s.other v }

abbrev pub change_to : Text → Text → VersionChange
change_to current candidate = classify (numeric_version current) (numeric_version candidate)

-- One round of the loop.
unfoldable pub consider : Text → Bool → Selections → Text → Selections
consider current include_prerelease s candidate =
    if is_update current include_prerelease candidate
    then put (change_to current candidate) candidate s
    else s

unfoldable pub consider_all : Text → Bool → Selections → List Text → Selections
consider_all current include_prerelease s [] = s
consider_all current include_prerelease s (v ∷ available) =
    consider_all current include_prerelease (consider current include_prerelease s v) available

-- `max_by`: of equal versions the later one.
unfoldable pub later_max :
    Option (Text × VersionChange) → Option Text → VersionChange → Option (Text × VersionChange)
later_max best none change = best
later_max none (some v) change = some (v, change)
later_max (some (b, kind)) (some v) change =
    if is_greater (compare_versions b v) then some (b, kind) else some (v, change)

unfoldable pub latest_of : Selections → Option (Text × VersionChange)
unfolding later_max
latest_of s =
    later_max (later_max (later_max (later_max none s.patch patch) s.minor minor) s.major major)
      s.other other

abbrev pub no_selections : Selections
no_selections = record { patch = none; minor = none; major = none; other = none }

-- `VersionUpdates`, with the two fields `latest` and `change`, which are set together, as one.
pub record VersionUpdates : Type 0 where
  pub selections : Selections
  pub latest : Option (Text × VersionChange)

unfoldable pub analyze_versions : Text → List Text → Bool → VersionUpdates
unfolding latest_of consider_all
analyze_versions current available include_prerelease =
    let s = consider_all current include_prerelease no_selections available in
    record { selections = s; latest = latest_of s }
