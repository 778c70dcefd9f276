-- ===== src/Release/Semver.antt =====
-- crates/jman-version/src/versioning.rs: `is_semver` and its helpers.
use jman.Base.{
  ℕ, Text, codes, text_eq, Bool, true, false, Option, none, some, List, [], ◌∷◌, ◌==◌, ◌=ℕ=◌, ◌&&◌,
  ◌||◌, not, is_empty, all_of, first_is, split_on, split_once, is_ascii_digit,
  is_ascii_alphanumeric,
}

abbrev is_zero : ℕ → Bool
is_zero c = c =ℕ= b'0'

unfoldable pub valid_core_number : Text → Bool
unfolding text_eq
valid_core_number value =
    not (is_empty value)
    && all_of is_ascii_digit value
    && (value == codes "0" || not (first_is is_zero value))

-- The test of one identifier.
unfoldable pub valid_identifier : Bool → Text → Bool
unfolding text_eq
valid_identifier reject_numeric_leading_zero identifier =
    not (is_empty identifier)
    && all_of (λ c. is_ascii_alphanumeric c || c =ℕ= b'-') identifier
    && (not reject_numeric_leading_zero
        || (not (all_of is_ascii_digit identifier)
            || (identifier == codes "0" || not (first_is is_zero identifier))))

unfoldable pub valid_identifiers : Text → Bool → Bool
unfolding valid_identifier split_on
valid_identifiers value reject =
    not (is_empty value) && all_of (valid_identifier reject) (split_on (λ c. c =ℕ= b'.') value)

abbrev valid_prerelease : Option (Text × Text) → Bool
valid_prerelease none = true
valid_prerelease (some (core, prerelease)) = valid_identifiers prerelease true

abbrev core_of : Text → Option (Text × Text) → Text
core_of before_build none = before_build
core_of before_build (some (core, prerelease)) = core

abbrev valid_core : List Text → Bool
valid_core (major ∷ minor ∷ patch ∷ []) =
    valid_core_number major && valid_core_number minor && valid_core_number patch
valid_core _ = false

-- The core and the prerelease, before any build metadata.
unfoldable pub valid_release : Text → Bool
unfolding valid_core_number valid_identifiers split_on split_once
valid_release before_build =
    let parts = split_once b'-' before_build in
    valid_prerelease parts && valid_core (split_on (λ c. c =ℕ= b'.') (core_of before_build parts))

abbrev valid_build : List Text → Bool
valid_build [] = false
valid_build (before_build ∷ []) = valid_release before_build
valid_build (before_build ∷ build ∷ []) =
    valid_identifiers build false && valid_release before_build
valid_build _ = false

unfoldable pub is_semver : Text → Bool
unfolding valid_release valid_identifiers split_on
is_semver version =
    not (is_empty version || first_is (λ c. c =ℕ= b'v') version)
    && valid_build (split_on (λ c. c =ℕ= b'+') version)
