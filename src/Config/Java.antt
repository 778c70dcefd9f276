-- ===== src/Config/Java.antt =====
-- crates/jman-config/src/lib.rs: `java_feature_version` and the normalisation of versions that
-- other tools write.
pub mod Laws
use jman.Base.{
  ℕ, Text, codes, text_eq, Bool, true, false, Option, none, some, List, [], ◌∷◌, ◌++◌, ◌==◌, ◌=ℕ=◌,
  ◌&&◌, ◌||◌, not, if◌then◌else◌, is_empty, take_while, skip_while, first_is, strip_prefix,
  is_ascii_digit, parse_unsigned, u16_limit, ltb,
}

-- `.filter(|major| *major > 0)`
abbrev pub positive : Option ℕ → Option ℕ
positive none = none
positive (some n) = if ltb 0 n then some n else none

abbrev is_suffix_start : ℕ → Bool
is_suffix_start c = c =ℕ= b'.' || (c =ℕ= b'+' || c =ℕ= b'-')

-- What follows the digits: an update of Java 8, a suffix, or nothing.
abbrev pub accept_suffix : ℕ → Text → Option Text → Option ℕ
accept_suffix major suffix (some update) =
    if major =ℕ= 8 && first_is is_ascii_digit update then some major else none
accept_suffix major suffix none =
    if not (is_empty suffix) && not (first_is is_suffix_start suffix) then none else some major

abbrev pub with_major : Text → Option ℕ → Option ℕ
with_major suffix none = none
with_major suffix (some major) = accept_suffix major suffix (strip_prefix (codes "u") suffix)

-- The feature version from the leading digits and what follows them.
unfoldable pub feature_of : Text → Text → Option ℕ
feature_of digits suffix =
    if is_empty digits then none else with_major suffix (positive (parse_unsigned u16_limit digits))

unfoldable pub java_feature_version : Text → Option ℕ
unfolding feature_of
java_feature_version version =
    feature_of (take_while is_ascii_digit version) (skip_while is_ascii_digit version)

abbrev or_prefix : Option Text → Option Text → Option Text
or_prefix none other = other
or_prefix (some s) other = some s

abbrev with_update : Text → Option Text → Text
with_update major none = major
with_update major (some update) = major ++ (b'u' ∷ update)

abbrev normalize_legacy : Text → Text → Text → Text
normalize_legacy version major suffix =
    if is_empty major
    then version
    else if is_empty suffix
    then major
    else with_update major
        (or_prefix (strip_prefix (codes ".0_") suffix) (strip_prefix (codes ".0.") suffix))

abbrev normalize_stripped : Text → Option Text → Text
normalize_stripped version none = version
normalize_stripped version (some legacy) =
    normalize_legacy version (take_while is_ascii_digit legacy) (skip_while is_ascii_digit legacy)

unfoldable pub normalize_compatibility_version : Text → Text
normalize_compatibility_version version =
    normalize_stripped version (strip_prefix (codes "1.") version)
