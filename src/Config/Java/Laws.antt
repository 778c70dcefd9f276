-- ===== src/Config/Java/Laws.antt =====
-- crates/jman-config/src/lib.rs: the bounds of a feature version.
use jman.Base.{
  ℕ, ◌≤◌, ◌<◌, ◌^◌, Text, Option, none, some, arith, ◌≡◌, take_while, skip_while, is_ascii_digit,
  parse_unsigned, parse_unsigned-lt, u16_limit,
}
use jman.Config.Java.{java_feature_version, feature_of, positive, with_major}

with_major-le : (suffix : Text) (o : Option ℕ) (n : ℕ) → with_major suffix o ≡ some n → o ≡ some n
with_major-le suffix none n h = cc
with_major-le suffix (some major) n h = ground arith

positive-of : (o : Option ℕ) (n : ℕ) → positive o ≡ some n → (o ≡ some n) × (1 ≤ n)
positive-of none n h = cc
positive-of (some m) n h = ground arith

feature_of-bounds :
    (digits suffix : Text) (n : ℕ)
    → feature_of digits suffix ≡ some n
    → (1 ≤ n) × (n < u16_limit) × (parse_unsigned u16_limit digits ≡ some n)
unfolding feature_of
feature_of-bounds digits suffix n h = ground (
  arith,
  with_major-le suffix (positive (parse_unsigned u16_limit digits)) n,
  positive-of (parse_unsigned u16_limit digits) n,
  parse_unsigned-lt u16_limit digits {n = n},
)

-- A feature version is at least 1 and fits 16 bits, and it is the number that the leading digits of
-- the text stand for.
pub java_feature_version-bounds :
    (version : Text) {n : ℕ}
    → java_feature_version version ≡ some n
    → (1 ≤ n)
      × (n < 2 ^ 16)
      × (parse_unsigned u16_limit (take_while is_ascii_digit version) ≡ some n)
unfolding java_feature_version
java_feature_version-bounds version {n} h =
    feature_of-bounds (take_while is_ascii_digit version) (skip_while is_ascii_digit version) n h
