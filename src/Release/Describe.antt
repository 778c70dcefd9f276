-- ===== src/Release/Describe.antt =====
-- crates/jman-version/src/versioning.rs: `VersionInfo`, `parse_git_description` and
-- `append_build_metadata`.
pub mod Roundtrip
use jman.Base.{
  ℕ, Text, codes, text_eq, Bool, true, false, Option, none, some, List, [], ◌∷◌, ◌++◌, ◌==◌, ◌=ℕ=◌,
  ◌&&◌, ◌||◌, not, if◌then◌else◌, all_of, any_of, strip_prefix, is_ascii_hexdigit, parse_unsigned,
  u64_limit, print_decimal,
}
use jman.Release.Semver.{is_semver}

pub record VersionInfo : Type 0 where
  pub release_version : Text
  pub build_version : Text
  pub git_commit : Option Text
  pub git_distance : Option ℕ
  pub dirty : Bool

-- `VersionInfo::override_version`
unfoldable pub override_version : Text → Text → VersionInfo
override_version release_version build_version = record {
  release_version = release_version;
  build_version = build_version;
  git_commit = none;
  git_distance = none;
  dirty = false;
}

abbrev onto_before : ℕ → Option (Text × Text) → Option (Text × Text)
onto_before c none = none
onto_before c (some (before, after)) = some (c ∷ before, after)

abbrev or_here : Option (Text × Text) → Bool → Text → Option (Text × Text)
or_here (some parts) here s = some parts
or_here none true s = some ([], s)
or_here none false s = none

-- Before and after the last such character: a step of `rsplitn`.
unfoldable pub rsplit_once : ℕ → Text → Option (Text × Text)
rsplit_once c [] = none
rsplit_once c (d ∷ s) = or_here (onto_before d (rsplit_once c s)) (d =ℕ= c) s

abbrev pub onto_some : ℕ → Option Text → Option Text
onto_some c none = none
onto_some c (some s) = some (c ∷ s)

unfoldable pub strip_suffix : Text → Text → Option Text
strip_suffix suffix [] = if suffix == [] then some [] else none
strip_suffix suffix (c ∷ s) =
    let rest = onto_some c (strip_suffix suffix s) in if suffix == c ∷ s then some [] else rest

unfoldable pub append_build_metadata : Text → Text → Text
append_build_metadata version metadata =
    if any_of (λ c. c =ℕ= b'+') version
    then version ++ (b'.' ∷ metadata)
    else version ++ (b'+' ∷ metadata)

abbrev dirty_suffix : Bool → Text
dirty_suffix true = codes ".dirty"
dirty_suffix false = []

-- `dev.{distance}.{commit}`, and `.dirty`.
unfoldable pub build_suffix : ℕ → Text → Bool → Text
unfolding print_decimal
build_suffix distance commit dirty =
    codes "dev." ++ (print_decimal distance ++ (b'.' ∷ (commit ++ dirty_suffix dirty)))

abbrev pub build_version_of : Text → ℕ → Text → Bool → Text
build_version_of release distance commit dirty =
    if distance =ℕ= 0 && not dirty
    then release
    else append_build_metadata release (build_suffix distance commit dirty)

-- `starts_with('g')`, at least two bytes, and hexadecimal digits after the first.
abbrev pub is_commit : Text → Bool
is_commit [] = false
is_commit (c ∷ []) = false
is_commit (c ∷ d ∷ s) = c =ℕ= b'g' && all_of is_ascii_hexdigit (d ∷ s)

abbrev drop_first : Text → Text
drop_first [] = []
drop_first (c ∷ s) = s

abbrev pub info_of : Text → ℕ → Text → Bool → VersionInfo
info_of release distance commit dirty = record {
  release_version = release;
  build_version = build_version_of release distance commit dirty;
  git_commit = some (drop_first commit);
  git_distance = some distance;
  dirty = dirty;
}

abbrev checked_info : Option Text → ℕ → Text → Bool → Option VersionInfo
checked_info none distance commit dirty = none
checked_info (some release) distance commit dirty =
    if not (is_semver release) || not (is_commit commit)
    then none
    else some (info_of release distance commit dirty)

abbrev with_distance : Text → Option ℕ → Text → Bool → Option VersionInfo
with_distance tag none commit dirty = none
with_distance tag (some distance) commit dirty =
    checked_info (strip_prefix (codes "v") tag) distance commit dirty

abbrev with_tag : Option (Text × Text) → Text → Bool → Option VersionInfo
with_tag none commit dirty = none
with_tag (some (tag, distance)) commit dirty =
    with_distance tag (parse_unsigned u64_limit distance) commit dirty

abbrev with_commit : Option (Text × Text) → Bool → Option VersionInfo
with_commit none dirty = none
with_commit (some (rest, commit)) dirty = with_tag (rsplit_once b'-' rest) commit dirty

abbrev pub describe_clean : Text → Bool → Option VersionInfo
describe_clean description dirty = with_commit (rsplit_once b'-' description) dirty

abbrev pub describe_stripped : Text → Option Text → Option VersionInfo
describe_stripped description none = describe_clean description false
describe_stripped description (some clean) = describe_clean clean true

unfoldable pub parse_git_description : Text → Option VersionInfo
unfolding append_build_metadata build_suffix
parse_git_description description =
    describe_stripped description (strip_suffix (codes "-dirty") description)
