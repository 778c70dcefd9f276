-- ===== src/Config/Names.antt =====
-- crates/jman-config/src/lib.rs: the validation of names, coordinates and vendors. The classes of
-- Unicode characters are those of Rust's standard library, taken as parameters.
use jman.Base.{
  ℕ, Text, codes, Bool, false, List, [], ◌∷◌, ◌++◌, ok, ◌&&◌, ◌||◌, not, ◌=ℕ=◌, if◌then◌else◌,
  is_empty, all_of, any_of, first_is, last_is, split_on, is_ascii_lowercase, is_ascii_digit,
  is_ascii_alphanumeric,
}
use jman.Config.Error.{Checked, invalid}

abbrev pub quoted : Text → Text → Text → Text
quoted before value after = before ++ (value ++ after)

module _ (is_alphabetic is_alphanumeric : ℕ → Bool) where
  abbrev java_start : ℕ → Bool
  java_start c = c =ℕ= b'_' || (c =ℕ= b'$' || is_alphabetic c)

  abbrev java_part : ℕ → Bool
  java_part c = c =ℕ= b'_' || (c =ℕ= b'$' || is_alphanumeric c)

  unfoldable pub is_java_identifier : Text → Bool
  is_java_identifier [] = false
  is_java_identifier (c ∷ part) = java_start c && all_of java_part part

  unfoldable pub validate_java_name : Text → Text → Checked
  unfolding is_java_identifier split_on
  validate_java_name label value =
      if all_of is_java_identifier (split_on (λ c. c =ℕ= b'.') value)
      then ok tt
      else invalid
          (label ++ quoted (codes " `") value (codes "` is not a valid dotted Java identifier"))

abbrev two_filled : List Text → Bool
two_filled (group ∷ artifact ∷ []) = not (is_empty group) && not (is_empty artifact)
two_filled _ = false

unfoldable pub validate_ga : Text → Checked
unfolding split_on
validate_ga coordinate =
    if two_filled (split_on (λ c. c =ℕ= b':') coordinate)
    then ok tt
    else invalid
        (quoted (codes "dependency `") coordinate (codes "` must use group:artifact notation"))

abbrev vendor_char : ℕ → Bool
vendor_char c = is_ascii_lowercase c || (is_ascii_digit c || c =ℕ= b'-')

abbrev is_dash : ℕ → Bool
is_dash c = c =ℕ= b'-'

unfoldable pub validate_jdk_vendor : Text → Checked
validate_jdk_vendor vendor =
    if not (is_empty vendor)
      && all_of vendor_char vendor
      && not (first_is is_dash vendor)
      && not (last_is is_dash vendor)
    then ok tt
    else invalid (quoted (codes "JDK vendor `") vendor (codes "` must be a lowercase identifier"))

abbrev generator_char : ℕ → Bool
generator_char c = is_ascii_alphanumeric c || (c =ℕ= b'-' || c =ℕ= b'_')

unfoldable pub validate_generator_name : Text → Text → Checked
validate_generator_name kind name =
    if not (is_empty name) && all_of generator_char name
    then ok tt
    else invalid (
        kind
        ++ quoted (codes " name `") name
            (codes "` must use only ASCII letters, digits, `-`, or `_`"))

-- `Path::is_absolute` on Unix.
abbrev pub is_absolute : Text → Bool
is_absolute = first_is (λ c. c =ℕ= b'/')

abbrev is_parent : Text → Bool
is_parent (c ∷ d ∷ []) = c =ℕ= b'.' && d =ℕ= b'.'
is_parent _ = false

-- Whether a component of the path is `..`.
unfoldable pub has_parent_component : Text → Bool
unfolding split_on
has_parent_component path = any_of is_parent (split_on (λ c. c =ℕ= b'/') path)
