-- ===== src/Resolver/Version.antt =====
-- crates/jman-resolver/src/version.rs: the order of versions and the analysis of updates. A rank
-- of `qualifier_key`, an `i8` from -60 to 10, is a number that is 60 higher. A Unicode digit other
-- than an ASCII one has no part in the source's tests, which are all of ASCII digits.
pub mod Order
pub mod Analysis
pub mod Updates
pub mod Latest
use jman.Base.{
  ℕ, zero, suc, ◌+◌, Text, codes, text_eq, Bool, true, false, Option, none, some, List, [], ◌∷◌,
  ◌==◌, ◌=ℕ=◌, ◌&&◌, ◌||◌, not, if◌then◌else◌, compare, Ordering, split_on, join, skip_while,
  take_while, is_ascii_digit, all_of, any_of, is_empty, parse_unsigned, u64_limit,
  to_ascii_lowercase, starts_with, strip_prefix, first_is, then_with, text_compare, ltb,
}

pub data VersionChange : Type 0 where
  patch minor major other : VersionChange

pub record NumericVersion : Type 0 where
  pub major : ℕ
  pub minor : ℕ

-- `['.', '-', '_', '+']`
abbrev pub is_separator : ℕ → Bool
is_separator c = c =ℕ= b'.' || (c =ℕ= b'-' || (c =ℕ= b'_' || c =ℕ= b'+'))

abbrev pub parse_u64 : Text → Option ℕ
parse_u64 = parse_unsigned u64_limit

-- `map_while(|value| value.parse().ok())`
unfoldable pub parse_leading : List Text → List ℕ
unfolding parse_unsigned
parse_leading [] = []
parse_leading (part ∷ parts) =
    let rest = parse_leading parts in elim (parse_u64 part) [ none ↦ [] | some n ↦ n ∷ rest ]

unfoldable pub numeric_components : Text → List ℕ
unfolding parse_leading split_on
numeric_components version = parse_leading (split_on is_separator version)

-- The second component, or 0.
abbrev minor_of : List Text → ℕ
minor_of [] = 0
minor_of (part ∷ parts) = elim (parse_u64 part) [ none ↦ 0 | some n ↦ n ]

abbrev numeric_of : List Text → Option NumericVersion
numeric_of [] = none
numeric_of (part ∷ parts) = elim (parse_u64 part) [
  | none ↦ none
  | some n ↦ some (record { major = n; minor = minor_of parts })
]

unfoldable pub numeric_version : Text → Option NumericVersion
unfolding parse_unsigned split_on
numeric_version version = numeric_of (split_on is_separator version)

abbrev marker_end : Option Text → Bool
marker_end none = false
marker_end (some suffix) =
    is_empty suffix || (first_is (λ c. c =ℕ= b'.') suffix || first_is is_ascii_digit suffix)

unfoldable pub qualifier_marker : Text → Text → Text → Bool
qualifier_marker qualifier long short =
    marker_end (strip_prefix long qualifier) || marker_end (strip_prefix short qualifier)

pub record QualifierKey : Type 0 where
  pub rank : ℕ
  pub number : ℕ
  pub text : Text

-- The rank that stands for no qualifier, 0 in the source.
abbrev pub release_rank : ℕ
release_rank = 60

unfoldable pub qualifier_rank : Text → ℕ
unfolding qualifier_marker
qualifier_rank q =
    if starts_with (codes "snapshot") q
    then 0
    else if qualifier_marker q (codes "alpha") (codes "a")
    then 10
    else if qualifier_marker q (codes "beta") (codes "b")
    then 20
    else if qualifier_marker q (codes "milestone") (codes "m")
    then 30
    else if qualifier_marker q (codes "rc") (codes "rc")
        || qualifier_marker q (codes "cr") (codes "cr")
    then 40
    else if qualifier_marker q (codes "ea") (codes "ea")
        || qualifier_marker q (codes "preview") (codes "preview")
    then 50
    else if starts_with (codes "sp") q
    then 70
    else release_rank

abbrev or_zero : Option ℕ → ℕ
or_zero none = 0
or_zero (some n) = n

unfoldable pub qualifier_number : Text → ℕ
unfolding parse_unsigned
qualifier_number q =
    or_zero (parse_u64 (take_while is_ascii_digit (skip_while (λ c. not (is_ascii_digit c)) q)))

-- The parts from the first that is not all digits on, joined by full stops.
unfoldable pub qualifier_of : Text → Text
unfolding split_on join
qualifier_of version =
    join (codes ".")
      (skip_while (all_of is_ascii_digit) (split_on is_separator (to_ascii_lowercase version)))

unfoldable pub key_of : Text → QualifierKey
unfolding qualifier_rank qualifier_number text_eq
key_of q =
    if is_empty q || (q == codes "final" || (q == codes "ga" || q == codes "release"))
    then record { rank = release_rank; number = 0; text = [] }
    else record { rank = qualifier_rank q; number = qualifier_number q; text = q }

unfoldable pub qualifier_key : Text → QualifierKey
unfolding qualifier_of key_of
qualifier_key version = key_of (qualifier_of version)

unfoldable pub is_prerelease : Text → Bool
unfolding qualifier_key
is_prerelease version = ltb (qualifier_key version).rank release_rank

-- The loop over both lists, with 0 where one has ended.
unfoldable pub compare_numbers : List ℕ → List ℕ → Ordering
compare_numbers [] [] = Ordering.eq
compare_numbers [] (b ∷ right) = then_with (compare 0 b) (compare_numbers [] right)
compare_numbers (a ∷ left) [] = then_with (compare a 0) (compare_numbers left [])
compare_numbers (a ∷ left) (b ∷ right) = then_with (compare a b) (compare_numbers left right)

-- `Ord` on the tuple.
unfoldable pub compare_keys : QualifierKey → QualifierKey → Ordering
unfolding text_compare
compare_keys a b =
    then_with (compare a.rank b.rank)
      (then_with (compare a.number b.number) (text_compare a.text b.text))

-- The two stages of `compare_versions`, on what is read from the texts.
unfoldable pub compare_parsed : List ℕ → QualifierKey → List ℕ → QualifierKey → Ordering
unfolding compare_numbers compare_keys
compare_parsed left left_key right right_key =
    then_with (compare_numbers left right) (compare_keys left_key right_key)

unfoldable pub compare_versions : Text → Text → Ordering
unfolding numeric_components qualifier_key compare_parsed
compare_versions left right =
    compare_parsed (numeric_components left) (qualifier_key left) (numeric_components right)
      (qualifier_key right)
